-- ===== src/Atomicity.antt =====
-- The services' transactions, together.
use gsb_salak_backend.Prelude.{String, Option}
use gsb_salak_backend.Prelude.Decimal.{Decimal}
use gsb_salak_backend.Domain.{Uuid}
use gsb_salak_backend.Store.Atomic.{IsAtomic}
use gsb_salak_backend.Users.{Bcrypt, register}
use gsb_salak_backend.Users.Registration.{register-IsAtomic}
use gsb_salak_backend.Purchase.{buy_salak}
use gsb_salak_backend.Purchase.Atomic.{buy_salak-IsAtomic}
use gsb_salak_backend.Kapook.Service.Deposit.{deposit}
use gsb_salak_backend.Kapook.Service.Withdraw.{withdraw}
use gsb_salak_backend.Kapook.Service.Buy.{buy_from_goal}
use gsb_salak_backend.Kapook.Service.Settlement.{settle_matured_holding}
use gsb_salak_backend.Kapook.Service.Atomic.{
  deposit-IsAtomic, withdraw-IsAtomic, buy_from_goal-IsAtomic, settle_matured_holding-IsAtomic,
}

-- A deposit, a withdrawal, a purchase from a goal or from an account, a settlement with its goal's part and a
-- registration that fail, at whatever step or statement, leave the committed tables as they were.
pub services-IsAtomic :
    (bcrypt : Bcrypt) (user a b id : Uuid) (badge : Option Uuid) (amount : Decimal)
    (username password full_name : String)
    → IsAtomic (deposit user a b amount)
      × IsAtomic (withdraw user a amount)
      × IsAtomic (buy_from_goal user a b amount)
      × IsAtomic (buy_salak user a b id badge amount)
      × IsAtomic (settle_matured_holding id)
      × IsAtomic (register bcrypt amount username password full_name)
services-IsAtomic bcrypt user a b id badge amount username password full_name = (
  deposit-IsAtomic user a b amount,
  withdraw-IsAtomic user a amount,
  buy_from_goal-IsAtomic user a b amount,
  buy_salak-IsAtomic user a b id badge amount,
  settle_matured_holding-IsAtomic id,
  register-IsAtomic bcrypt amount username password full_name,
)
