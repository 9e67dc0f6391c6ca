-- ===== src/Startup/Addresses.antt =====
-- src/main.rs: the addresses that the two web servers of a server are bound to.
pub mod Parsed
use mpc_server.Common.{
  ℕ, ◌≡◌, ◌≤◌, Bool, true, ◌&&◌, ◌||◌, Option, none, some, [], ◌∷◌, ◌++◌, Text, leb, if◌then◌else◌,
  ◌==◌, Result, ok, err, All,
}
use mpc_server.Common.Decimal.{ParseError, malformed, read_number, to_string, is_digit}
use mpc_server.Common.Fallible.{◌>>=◌}

-- `Ipv4Addr`: four octets.
pub record Ipv4Addr : Type 0 where
  pub a : ℕ
  pub b : ℕ
  pub c : ℕ
  pub d : ℕ

-- `Ipv6Addr`, by its text and by the parser of what stands in brackets.
pub record Ipv6 : Type 1 where
  pub Addr : Type 0
  pub show : Addr → Text
  pub parse_in_brackets : Text → Option (Addr × ℕ)

-- `IpAddr`
pub data IpAddr ⦃six : Ipv6⦄ : Type 0 where
  v4 : Ipv4Addr → IpAddr
  v6 : six.Addr → IpAddr

abbrev is_hex : ℕ → Bool
is_hex c = is_digit c || leb 97 c && leb c 102

-- RFC 5952: the text of an address is groups of hexadecimal digits with colons between them, so
-- what its first group ends with is a colon.
pub record Ipv6Laws ⦃six : Ipv6⦄ : Type 0 where
  pub first_group :
      (addr : six.Addr)
      → (group : Text) × (rest : Text) × All (λ c. is_hex c ≡ true) group
        × (six.show addr ≡ group ++ (58 ∷ rest))

-- `Display` of an `Ipv4Addr`
unfoldable show_v4 : Ipv4Addr → Text
show_v4 ip =
    to_string ip.a ++ (46 ∷ to_string ip.b ++ (46 ∷ to_string ip.c ++ (46 ∷ to_string ip.d)))

module _ ⦃six : Ipv6⦄ where
  unfoldable show : IpAddr → Text
  show (v4 ip) = show_v4 ip
  show (v6 ip) = six.show ip

expect : ℕ → Text → Result ParseError (Text × Unit {0})
expect c [] = err malformed
expect c (x ∷ xs) = if x == c then ok (xs, tt) else err malformed

-- An octet of an address: no zero in front of another digit.
unfoldable read_octet : Text → Result ParseError (Text × ℕ)
read_octet [] = err malformed
read_octet (c ∷ []) = read_number 255 (c ∷ [])
read_octet (c ∷ x ∷ xs) =
    if c == 48 && is_digit x then err malformed else read_number 255 (c ∷ x ∷ xs)

-- What is left must be nothing.
finish : {A : Type 0} → A → Text → Result ParseError A
finish a [] = ok a
finish a (_ ∷ _) = err malformed

-- `SocketAddrV4::from_str`
unfoldable read_v4 : Text → Result ParseError (Ipv4Addr × ℕ)
unfolding expect finish
read_v4 text = do
  (t1, a) ← read_octet text
  (t2, _) ← expect 46 t1
  (t3, b) ← read_octet t2
  (t4, _) ← expect 46 t3
  (t5, c) ← read_octet t4
  (t6, _) ← expect 46 t5
  (t7, d) ← read_octet t6
  (t8, _) ← expect 58 t7
  (t9, port) ← read_number 65535 t8
  finish (record { a = a; b = b; c = c; d = d }, port) t9

module _ ⦃six : Ipv6⦄ where
  in_brackets : Option (six.Addr × ℕ) → Result ParseError (IpAddr × ℕ)
  in_brackets none = err malformed
  in_brackets (some (ip, port)) = ok (v6 ip, port)

  -- `SocketAddr::from_str`
  unfoldable parse : Text → Result ParseError (IpAddr × ℕ)
  parse [] = err malformed
  parse (c ∷ cs) =
      if c == 91
      then in_brackets (six.parse_in_brackets cs)
      else (do (ip, port) ← read_v4 (c ∷ cs); ok (v4 ip, port))

  -- The address of the API out of its text: `format!` and `parse`.
  pub api_address : IpAddr → ℕ → Result ParseError (IpAddr × ℕ)
  unfolding show parse
  api_address address port = parse (show address ++ (58 ∷ to_string port))

  -- The octets are those of an address.
  abbrev pub IsAddress : IpAddr → Type 0
  IsAddress (v4 ip) = (ip.a ≤ 255) × (ip.b ≤ 255) × (ip.c ≤ 255) × (ip.d ≤ 255)
  IsAddress (v6 ip) = Unit
