-- ===== src/Examples/Codec.antt =====
-- A stand-in for the JSON of serde: a record is the list of its fields, and a list of texts is
-- one text, each byte one higher and a zero behind each text.
use mpc_server.Common.{ℕ, zero, suc, ◌≡◌, refl, ap, ◌∙◌, sym, List, [], ◌∷◌, Option, some, Text}
use mpc_server.Common.Fallible.{some-injective}
use mpc_server.External.Serde.{Serde, SerdeLaws}

abbrev pub pack_one : Text → Text → Text
pack_one [] rest = 0 ∷ rest
pack_one (c ∷ t) rest = suc c ∷ pack_one t rest

abbrev pub pack : List Text → Text
pack [] = []
pack (t ∷ ts) = pack_one t (pack ts)

abbrev pub cons_head : ℕ → List Text → List Text
cons_head c [] = (c ∷ []) ∷ []
cons_head c (t ∷ ts) = (c ∷ t) ∷ ts

abbrev pub unpack : Text → List Text
unpack [] = []
unpack (zero ∷ rest) = [] ∷ unpack rest
unpack (suc c ∷ rest) = cons_head c (unpack rest)

unpack-pack_one : (t rest : Text) → unpack (pack_one t rest) ≡ t ∷ unpack rest
unpack-pack_one [] rest = refl
unpack-pack_one (c ∷ t) rest = ap (cons_head c) (unpack-pack_one t rest)

unpack-pack : (ts : List Text) → unpack (pack ts) ≡ ts
unpack-pack [] = refl
unpack-pack (t ∷ ts) = unpack-pack_one t (pack ts) ∙ ap (◌∷◌ t) (unpack-pack ts)

-- The format of a record type.
abbrev pub coded : {A : Type 0} → (A → List Text) → (List Text → Option A) → Serde A
coded fields from_fields = record {
  write = λ a. some (pack (fields a));
  read = λ t. from_fields (unpack t);
}

pub coded-SerdeLaws :
    {A : Type 0} (fields : A → List Text) (from_fields : List Text → Option A)
    → ((a : A) → from_fields (fields a) ≡ some a)
    → SerdeLaws A ⦃serde = coded fields from_fields⦄
coded-SerdeLaws fields from_fields back = record {
  read-write = λ a t written.
      ap (λ s. from_fields (unpack s)) (sym (some-injective written))
      ∙ ap from_fields (unpack-pack (fields a))
      ∙ back a;
}
