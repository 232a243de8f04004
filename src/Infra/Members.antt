-- ===== src/Infra/Members.antt =====
-- What Redis documents of the members of its sorted sets under a transaction.
use taxi_app.Base.{String, Bool, true, false, none, List, [], ◌∷◌, ◌≡◌, if◌then◌else◌, str_eq, ◌&&◌}
use taxi_app.Infra.{Redis, Command, geo_add, h_set, expire, z_rem, del, incr}

-- Whether the member is in the set at the key after a command.
abbrev pub after_command : {F : Type 0} → String → String → Bool → Command F → Bool
after_command k n b (geo_add key name longitude latitude) =
    if str_eq key k && str_eq name n then true else b
after_command k n b (z_rem key name) = if str_eq key k && str_eq name n then false else b
after_command k n b (del key) = if str_eq key k then false else b
after_command k n b (h_set key region lat lng ts) = b
after_command k n b (expire key ttl) = b
after_command k n b (incr key) = b

abbrev pub after_commands : {F : Type 0} → String → String → Bool → List (Command F) → Bool
after_commands k n b [] = b
after_commands k n b (c ∷ cs) = after_commands k n (after_command k n b c) cs

-- A transaction without an error has run all its commands, in their order.
pub record IsMembership {F : Type 0} (r : Redis F) : Type 0 where
  pub member : r.Db → String → String → Bool
  pub tx_member :
      (cs : List (Command F)) (k n : String) (db : r.Db)
      → (r.tx_exec cs db).0 ≡ none
      → member (r.tx_exec cs db).1 k n ≡ after_commands k n (member db k n) cs
