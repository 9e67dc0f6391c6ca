-- ===== src/Coordinator/Indices.antt =====
-- The indices that a sign request gives to its participants.
use mpc_server.Common.{
  ℕ, ◌+◌, ◌%◌, ◌≡◌, ◌↔◌, refl, sym, ap, ◌∙◌, List, [], ◌∷◌, some, ok, Text, length, map, subst,
  arith, Option-cases, inl, inr,
}
use mpc_server.Group.{PublicKeyGroup, get_index, as_u16}
use mpc_server.Coordinator.Requests.{signing_indices, found_indices, missing_indices}

-- Each index is the one of the participant at its place.
abbrev pub AreIndices : PublicKeyGroup → List Text → List ℕ → Type 0
AreIndices g [] [] = Unit
AreIndices g [] (i ∷ is) = ⊥
AreIndices g (k ∷ ks) [] = ⊥
AreIndices g (k ∷ ks) (i ∷ is) =
    ((j : ℕ) × (get_index g k ≡ some j) × (i ≡ as_u16 j)) × AreIndices g ks is

found_when_none_missing :
    (g : PublicKeyGroup) (ks : List Text)
    → missing_indices g ks ≡ 0
    → AreIndices g ks (map as_u16 (found_indices g ks)) × (length (found_indices g ks) ≡ length ks)
unfolding found_indices missing_indices
found_when_none_missing g [] h = (tt, refl)
found_when_none_missing g (k ∷ ks) h = elim (Option-cases (get_index g k)) [
  | inl e ↦ absurd (ground arith)
  | inr (j, e) ↦
      let (are, len) = found_when_none_missing g ks (ground arith) in
      rw (e, found_indices) (((j, e, refl), are), omega arith)
]

found_of_AreIndices :
    (g : PublicKeyGroup) (ks : List Text) (is : List ℕ)
    → AreIndices g ks is
    → (missing_indices g ks ≡ 0)
      × (length (found_indices g ks) ≡ length ks)
      × (map as_u16 (found_indices g ks) ≡ is)
unfolding found_indices missing_indices
found_of_AreIndices g [] [] h = (refl, refl, refl)
found_of_AreIndices g [] (i ∷ is) h = absurd h
found_of_AreIndices g (k ∷ ks) [] h = absurd h
found_of_AreIndices g (k ∷ ks) (i ∷ is) ((j, e, u), rest) =
    let (a, b, c) = found_of_AreIndices g ks is rest in
    rw (e, missing_indices, found_indices) (a, omega (arith, b), cc (u, c))

signing_indices-inversion :
    (g : PublicKeyGroup) (t : ℕ) (ks : List Text) (is : List ℕ)
    → signing_indices g t ks ≡ ok is
    → (length (found_indices g ks) ≡ (t + 1) % 65536)
      × (missing_indices g ks ≡ 0)
      × (map as_u16 (found_indices g ks) ≡ is)
unfolding signing_indices
signing_indices-inversion g t ks is h = (ground arith, ground arith, ground arith)

signing_indices_found :
    (g : PublicKeyGroup) (t : ℕ) (ks : List Text)
    → length (found_indices g ks) ≡ (t + 1) % 65536
    → missing_indices g ks ≡ 0
    → signing_indices g t ks ≡ ok (map as_u16 (found_indices g ks))
unfolding signing_indices
signing_indices_found g t ks a b = ground arith

-- A sign request gets indices exactly when it has one participant more than the threshold and
-- each of them is in the group of the key, and they are the participants' indices there, in order.
pub signing_indices_iff :
    (g : PublicKeyGroup) (t : ℕ) (ks : List Text) (is : List ℕ)
    → (signing_indices g t ks ≡ ok is) ↔ ((length ks ≡ (t + 1) % 65536) × AreIndices g ks is)
signing_indices_iff g t ks is = (
  λ h.
      let (count, none_missing, found) = signing_indices-inversion g t ks is h in
      let (are, len) = found_when_none_missing g ks none_missing in
      (sym len ∙ count, subst (AreIndices g ks) found are),
  λ (count, are).
      let (none_missing, len, found) = found_of_AreIndices g ks is are in
      signing_indices_found g t ks (len ∙ count) none_missing ∙ ap ok found,
)
