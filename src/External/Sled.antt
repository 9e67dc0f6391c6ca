-- ===== src/External/Sled.antt =====
-- sled::Db: a persistent map of byte strings. `none` is an I/O error, after which the caller
-- still holds the database that it had.
use mpc_server.Common.{Bool, true, false, ◌≡◌, Option, none, some, Text, text_eq, if◌then◌else◌}

pub record Sled : Type 1 where
  pub Db : Type 0
  pub get : Db → Text → Option (Option Text)
  pub contains_key : Db → Text → Option Bool
  pub insert : Db → Text → Text → Option Db
  -- The old and the new value. Whether the swap was made is an inner result that no caller reads.
  pub compare_and_swap : Db → Text → Option Text → Option Text → Option Db

abbrev pub is_some : {A : Type 0} → Option A → Bool
is_some none = false
is_some (some a) = true

-- What sled documents of these calls.
pub record SledLaws ⦃sled : Sled⦄ : Type 0 where
  pub get-insert :
      (d d' : sled.Db) (k v : Text)
      → sled.insert d k v ≡ some d'
      → (j : Text) → sled.get d' j ≡ (if text_eq k j then some (some v) else sled.get d j)
  pub contains_key-get :
      (d : sled.Db) (k : Text) (o : Option Text)
      → sled.get d k ≡ some o
      → sled.contains_key d k ≡ some (is_some o)
  -- A swap that expects no value writes where there is none, and leaves a value that is there.
  pub swap_absent :
      (d d' : sled.Db) (k v : Text)
      → sled.get d k ≡ some none
      → sled.compare_and_swap d k none (some v) ≡ some d'
      → (j : Text) → sled.get d' j ≡ (if text_eq k j then some (some v) else sled.get d j)
  pub swap_present :
      (d d' : sled.Db) (k v w : Text)
      → sled.get d k ≡ some (some w)
      → sled.compare_and_swap d k none (some v) ≡ some d'
      → (j : Text) → sled.get d' j ≡ sled.get d j
