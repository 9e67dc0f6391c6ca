-- ===== src/Startup/Addresses/Parsed.antt =====
-- The text that src/main.rs makes of an address, and what std::net reads out of it.
use mathlib.Core.List.{append_assoc}
use mpc_server.Common.{
  ℕ, zero, suc, ◌+◌, ◌-◌, ◌*◌, subst, ◌≡◌, ◌≤◌, refl, ap, ◌∙◌, Bool, true, false, ◌&&◌, [], ◌∷◌,
  ◌++◌, Text, leb, if◌then◌else◌, arith, inl, inr, ◌==◌, Result, ok, err, Bool-cases, All,
}
use mpc_server.Common.Decimal.{
  ParseError, malformed, StartsDigit, IsEnd, read_number, read_number-digits, digits, to_string,
  to_string-append, is_digit, digits-StartsDigit, read_digits, digits_first,
}
use mpc_server.Common.Fallible.{◌>>=◌, Result-cases}
use mpc_server.Startup.Addresses.{
  Ipv4Addr, Ipv6, v4, v6, is_hex, Ipv6Laws, show_v4, show, expect, read_octet, finish, read_v4,
  parse, api_address, IsAddress,
}

-- An octet is read back.

read_octet_of : (t : Text) → StartsDigit 1 t → read_octet t ≡ read_number 255 t
unfolding read_octet
read_octet_of [] h = absurd h
read_octet_of (c ∷ []) h = refl
read_octet_of (c ∷ x ∷ xs) h = let e : (c == 48) ≡ false = ground arith in rw e refl

read_zero :
    (behind : Text) → IsEnd behind → read_octet (48 ∷ behind) ≡ read_number 255 (48 ∷ behind)
unfolding read_octet
read_zero [] e = refl
read_zero (x ∷ xs) e = rw e refl

octet_first :
    (n : ℕ) (behind : Text)
    → IsEnd behind
    → read_octet (digits (suc n) n behind) ≡ read_number 255 (digits (suc n) n behind)
unfolding digits
octet_first zero behind e = read_zero behind e
octet_first (suc n) behind e =
    read_octet_of (digits (suc (suc n)) (suc n) behind)
      (digits-StartsDigit (suc (suc n)) (suc n) behind (omega arith) (omega arith))

read_octet-digits :
    (n : ℕ) (behind : Text)
    → n ≤ 255
    → IsEnd behind
    → read_octet (to_string n ++ behind) ≡ ok (behind, n)
read_octet-digits n behind small e =
    ap read_octet (to_string-append n behind)
    ∙ octet_first n behind e
    ∙ read_number-digits 255 n behind small e

-- A text that does not go on with a dot.
abbrev NoDot : Text → Type 0
NoDot [] = Unit
NoDot (c ∷ cs) = (c == 46) ≡ false

-- The parser fails, or stops before something else than a dot.
abbrev StopsAtNoDot : Result ParseError (Text × ℕ) → Type 0
StopsAtNoDot (ok (t, n)) = NoDot t
StopsAtNoDot (err _) = Unit

is_hex-NoDot : (c : ℕ) → is_hex c ≡ true → (c == 46) ≡ false
is_hex-NoDot c h = ground arith

read_digits-StopsAtNoDot :
    (limit value : ℕ) (group rest : Text)
    → All (λ c. is_hex c ≡ true) group
    → StopsAtNoDot (read_digits limit value (group ++ (58 ∷ rest)))
unfolding read_digits
read_digits-StopsAtNoDot limit value [] rest h = refl
read_digits-StopsAtNoDot limit value (c ∷ cs) rest (h, hs) = elim (Bool-cases (is_digit c)) [
  | inr e ↦ rw e (is_hex-NoDot c h)
  | inl e ↦ elim (Bool-cases (leb (value * 10 + (c - 48)) limit)) [
    | inr f ↦ rw (e, f) tt
    | inl f ↦ rw (e, f) (read_digits-StopsAtNoDot limit (value * 10 + (c - 48)) cs rest hs)
  ]
]

StopsAtNoDot-choice :
    (b : Bool) (r r' : Result ParseError (Text × ℕ))
    → StopsAtNoDot r
    → StopsAtNoDot r'
    → StopsAtNoDot (if b then r else r')
StopsAtNoDot-choice true r r' h h' = h
StopsAtNoDot-choice false r r' h h' = h'

read_number-StopsAtNoDot :
    (limit : ℕ) (group rest : Text)
    → All (λ c. is_hex c ≡ true) group
    → StopsAtNoDot (read_number limit (group ++ (58 ∷ rest)))
unfolding read_number
read_number-StopsAtNoDot limit [] rest h = tt
read_number-StopsAtNoDot limit (c ∷ cs) rest h =
    StopsAtNoDot-choice (is_digit c) _ _ (read_digits-StopsAtNoDot limit 0 (c ∷ cs) rest h) tt

read_octet-StopsAtNoDot :
    (group rest : Text)
    → All (λ c. is_hex c ≡ true) group
    → StopsAtNoDot (read_octet (group ++ (58 ∷ rest)))
unfolding read_octet
read_octet-StopsAtNoDot [] [] h = read_number-StopsAtNoDot 255 [] [] h
read_octet-StopsAtNoDot [] (x ∷ xs) h = read_number-StopsAtNoDot 255 [] (x ∷ xs) h
read_octet-StopsAtNoDot (c ∷ []) rest h =
    StopsAtNoDot-choice (c == 48 && is_digit 58) _ _ tt
      (read_number-StopsAtNoDot 255 (c ∷ []) rest h)
read_octet-StopsAtNoDot (c ∷ x ∷ xs) rest h =
    StopsAtNoDot-choice (c == 48 && is_digit x) _ _ tt
      (read_number-StopsAtNoDot 255 (c ∷ x ∷ xs) rest h)

expect-NoDot : (t : Text) → NoDot t → expect 46 t ≡ err malformed
unfolding expect
expect-NoDot [] h = refl
expect-NoDot (c ∷ cs) h = rw h refl

read_v4_fails : (t : Text) → StopsAtNoDot (read_octet t) → read_v4 t ≡ err malformed
unfolding read_v4
read_v4_fails t h = elim (Result-cases (read_octet t)) [
  | inr (malformed, e) ↦ rw e refl
  | inl ((t1, a), e) ↦ let at : NoDot t1 = subst StopsAtNoDot e h in rw (e, expect-NoDot t1 at) refl
]

to_string_read : (port : ℕ) → port ≤ 65535 → read_number 65535 (to_string port) ≡ ok ([], port)
unfolding to_string
to_string_read port fits = read_number-digits 65535 port [] fits tt

show_v4-StartsDigit :
    (ip : Ipv4Addr) (port : ℕ) → StartsDigit 0 (show_v4 ip ++ (58 ∷ to_string port))
unfolding show_v4
show_v4-StartsDigit ip port =
    rw (append_assoc (to_string ip.a) _ (58 ∷ to_string port), to_string-append ip.a _)
      (digits_first ip.a _)

read_v4-show :
    (ip : Ipv4Addr) (port : ℕ)
    → (ip.a ≤ 255) × (ip.b ≤ 255) × (ip.c ≤ 255) × (ip.d ≤ 255)
    → port ≤ 65535
    → read_v4 (show_v4 ip ++ (58 ∷ to_string port)) ≡ ok (ip, port)
unfolding read_v4 show_v4 expect finish
read_v4-show ip port (fa, fb, fc, fd) fits =
    rw
      (
        append_assoc (to_string ip.a) _ (58 ∷ to_string port),
        append_assoc (to_string ip.b) _ (58 ∷ to_string port),
        append_assoc (to_string ip.c) _ (58 ∷ to_string port),
        read_octet-digits ip.a _ fa refl,
        read_octet-digits ip.b _ fb refl,
        read_octet-digits ip.c _ fc refl,
        read_octet-digits ip.d (58 ∷ to_string port) fd refl,
        to_string_read port fits,
      )
      refl

module _ ⦃six : Ipv6⦄ where
  parse_digit_first :
      (t : Text) → StartsDigit 0 t → parse t ≡ (do (ip, port) ← read_v4 t; ok (v4 ip, port))
  unfolding parse
  parse_digit_first [] h = absurd h
  parse_digit_first (c ∷ cs) h = let e : (c == 91) ≡ false = ground arith in rw e refl

  parse_hex :
      (group rest : Text)
      → All (λ c. is_hex c ≡ true) group
      → parse (group ++ (58 ∷ rest)) ≡ err malformed
  unfolding parse
  parse_hex [] rest h = rw (read_v4_fails (58 ∷ rest) (read_octet-StopsAtNoDot [] rest h)) refl
  parse_hex (c ∷ cs) rest h =
      let e : (c == 91) ≡ false = ground arith in
      rw (e, read_v4_fails (c ∷ (cs ++ (58 ∷ rest))) (read_octet-StopsAtNoDot (c ∷ cs) rest h)) refl

  -- The text of an address of version 6 has no brackets, and does not parse.
  pub api_address_v6 :
      Ipv6Laws → (ip : six.Addr) (port : ℕ) → api_address (v6 ip) port ≡ err malformed
  unfolding api_address show
  api_address_v6 laws ip port =
      let (group, rest, hex, e) = laws.first_group ip in
      rw (e, append_assoc group (58 ∷ rest) (58 ∷ to_string port)) (parse_hex group _ hex)

  -- The text of an address of version 4 parses to it.
  pub api_address_v4 :
      (ip : Ipv4Addr) (port : ℕ)
      → IsAddress (v4 ip)
      → port ≤ 65535
      → api_address (v4 ip) port ≡ ok (v4 ip, port)
  unfolding api_address show
  api_address_v4 ip port small fits =
      parse_digit_first _ (show_v4-StartsDigit ip port)
      ∙ (rw (read_v4-show ip port small fits) refl)
