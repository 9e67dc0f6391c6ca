-- ===== src/External/Serde.antt =====
-- serde_json for one type: `write` is `to_string`, `to_vec` or `to_vec_pretty`, whichever the code
-- calls for the type, and `read` is `from_str` or `from_slice`.
use mpc_server.Common.{◌≡◌, Option, some, Text}

pub record Serde (A : Type 0) : Type 0 where
  pub write : A → Option Text
  pub read : Text → Option A

-- What is written reads back as it was.
pub record SerdeLaws (A : Type 0) ⦃serde : Serde A⦄ : Type 0 where
  pub read-write : (a : A) (t : Text) → serde.write a ≡ some t → serde.read t ≡ some a
