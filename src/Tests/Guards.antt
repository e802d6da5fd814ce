-- ===== src/Tests/Guards.antt =====
-- The all-or-nothing theorems on the small bank.
use gsb_salak_backend.Prelude.{none}
use gsb_salak_backend.Prelude.Decimal.{baht}
use gsb_salak_backend.Store.Atomic.{IsAtomic}
use gsb_salak_backend.Users.{register}
use gsb_salak_backend.Purchase.{buy_salak}
use gsb_salak_backend.Kapook.Worker.{run_once}
use gsb_salak_backend.Kapook.Worker.Atomic.{run_once-IsAtomic}
use gsb_salak_backend.Kapook.Service.Deposit.{deposit}
use gsb_salak_backend.Kapook.Service.Withdraw.{withdraw}
use gsb_salak_backend.Kapook.Service.Buy.{buy_from_goal}
use gsb_salak_backend.Kapook.Service.Settlement.{settle_matured_holding}
use gsb_salak_backend.Atomicity.{services-IsAtomic}
use gsb_salak_backend.Tests.Access.{bcrypt}

services-IsAtomic_example :
    IsAtomic (deposit 1 11 10 (baht 50))
    × IsAtomic (withdraw 1 11 (baht 50))
    × IsAtomic (buy_from_goal 1 11 10 (baht 50))
    × IsAtomic (buy_salak 1 11 10 40 none (baht 50))
    × IsAtomic (settle_matured_holding 40)
    × IsAtomic (register bcrypt (baht 50) "somsri" "password" "Somsri Somjai")
services-IsAtomic_example =
    services-IsAtomic bcrypt 1 11 10 40 none (baht 50) "somsri" "password" "Somsri Somjai"

run_once-IsAtomic_example : IsAtomic (run_once 0)
run_once-IsAtomic_example = run_once-IsAtomic 0
