-- ===== src/Tests.antt =====
-- Concrete keyspaces, and the theorems at inputs that meet their hypotheses.
pub mod Numbers
pub mod Requests
pub mod Intsets
pub mod Dicts
pub mod Dumps
pub mod Transactions
pub mod Commands
pub mod PubSubs
pub mod Waits
pub mod Lists
use gridapps.Object.{int, raw}
use gridapps.Db.Evict.{IsSound}
use gridapps.Commands.{empty}
use gridapps.Db.{Keyspace, Env}
use gridapps.Prelude.{false, pos, [], arith, ◌∷◌, ℕ, find, codes}

abbrev pub master_at : ℕ → Env
master_at t = record {
  now = t;
  loading = false;
  slave = false;
  erange = false;
  linked = λ k. false;
}

-- "n" holds 41 as an integer, "s" a raw string, and "t" one whose time ends at 50.
abbrev pub sample : Keyspace
sample = record empty {
  dict =
      (codes "n", int (pos 41))
      ∷ (codes "s", raw (codes "hello"))
      ∷ (codes "t", raw (codes "old"))
      ∷ [];
  expires = (codes "t", pos 50) ∷ [];
}

pub sample-IsSound : IsSound sample
unfolding find
sample-IsSound = record { owned = λ k p. ground arith }
