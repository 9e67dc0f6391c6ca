-- ===== src/Startup/Keystore.antt =====
-- src/keystore.rs: the secret key out of a key file and a password file.
use mpc_server.Common.{
  ℕ, zero, suc, ◌%◌, ◌≡◌, ◌↔◌, ap, sym, ◌∙◌, refl, Bool, not, ◌&&◌, ◌||◌, List, [], ◌∷◌, Option,
  some, Result, ok, err, ok_or, Text, leb, if◌then◌else◌, ◌==◌, drop, length, arith,
}
use mpc_server.Common.Fallible.{◌>>=◌, ok_or_bind-elim, bind-elim, ok-injective}
use mpc_server.Failure.{
  Failure, find_file, file_mode_too_broad, read_password_file, decrypt_keystore, parse_secret_key,
}
use mpc_server.External.Crypto.{Crypto}

-- The file system, and eth_keystore's `decrypt_key`, at one moment.
pub record Files : Type 0 where
  pub mode : List Text → Option ℕ
  pub read_to_string : List Text → Option Text
  pub decrypt_key : List Text → Text → Option Text

-- White space in UTF-8: characters of one, two and three bytes.
abbrev white1 : ℕ → Bool
white1 a = leb 9 a && leb a 13 || a == 32

abbrev white2 : ℕ → ℕ → Bool
white2 a b = a == 194 && (b == 133 || b == 160)

abbrev white3 : ℕ → ℕ → ℕ → Bool
white3 a b c =
    a == 225 && b == 154 && c == 128
    || a == 226 && b == 128 && (leb 128 c && leb c 138 || c == 168 || c == 169 || c == 175)
    || a == 226 && b == 129 && c == 159
    || a == 227 && b == 128 && c == 128

-- How many bytes the white space character at the start has, and 0 if there is none.
unfoldable pub white_start : Text → ℕ
white_start [] = 0
white_start (a ∷ []) = if white1 a then 1 else 0
white_start (a ∷ b ∷ []) = if white1 a then 1 else if white2 a b then 2 else 0
white_start (a ∷ b ∷ c ∷ s) =
    if white1 a then 1 else if white2 a b then 2 else if white3 a b c then 3 else 0

-- The same at the end, of a text that is turned round.
unfoldable pub white_end : Text → ℕ
white_end [] = 0
white_end (a ∷ []) = if white1 a then 1 else 0
white_end (a ∷ b ∷ []) = if white1 a then 1 else if white2 b a then 2 else 0
white_end (a ∷ b ∷ c ∷ s) =
    if white1 a then 1 else if white2 b a then 2 else if white3 c b a then 3 else 0

unfoldable pub skip_white : (Text → ℕ) → ℕ → Text → Text
skip_white width zero s = s
skip_white width (suc fuel) s = elim (width s) [
  | zero ↦ s
  | suc k ↦ skip_white width fuel (drop (suc k) s)
]

unfoldable pub reverse_onto : Text → Text → Text
reverse_onto [] t = t
reverse_onto (c ∷ s) t = reverse_onto s (c ∷ t)

-- `str::trim`
unfoldable pub trim : Text → Text
unfolding white_start white_end skip_white reverse_onto
trim s =
    let front = skip_white white_start (length s) s in
    reverse_onto (skip_white white_end (length front) (reverse_onto front [])) []

-- `mode & 0o777 != 0o400`
unfoldable pub check_mode : ℕ → Result Failure (Unit {0})
check_mode n = if not (n == 256) then err file_mode_too_broad else ok tt

check_mode_ok : (n : ℕ) → n ≡ 256 → check_mode n ≡ ok tt
unfolding check_mode
check_mode_ok n h = ground arith

checked_mode : (n : ℕ) {u : Unit {0}} → check_mode n ≡ ok u → n ≡ 256
unfolding check_mode
checked_mode n h = ground arith

module _ ⦃crypto : Crypto⦄ where
  -- `get_secret_key`; `mode & 0o777` is the last nine bits.
  unfoldable pub get_secret_key :
      Files → List Text → List Text → Result Failure (crypto.SecretKey × crypto.PublicKey)
  get_secret_key files keystore_path password_path = do
    mode ← ok_or (files.mode password_path) find_file
    _ ← check_mode (mode % 512)
    password ← ok_or (files.read_to_string password_path) read_password_file
    key ← ok_or (files.decrypt_key keystore_path (trim password)) decrypt_keystore
    sk ← ok_or (crypto.parse_secret_key key) parse_secret_key
    ok (sk, crypto.from_secret_key sk)

  -- What it takes to get a secret key.
  pub record IsUnlocked (files : Files) (keystore_path password_path : List Text)
      (sk : crypto.SecretKey) : Type 0 where
    pub mode : ℕ
    pub password : Text
    pub key : Text
    pub found : files.mode password_path ≡ some mode
    pub private : mode % 512 ≡ 256
    pub read : files.read_to_string password_path ≡ some password
    pub decrypted : files.decrypt_key keystore_path (trim password) ≡ some key
    pub parsed : crypto.parse_secret_key key ≡ some sk

  IsUnlocked-get_secret_key :
      (files : Files) (keystore_path password_path : List Text) (sk : crypto.SecretKey)
      → IsUnlocked files keystore_path password_path sk
      → get_secret_key files keystore_path password_path ≡ ok (sk, crypto.from_secret_key sk)
  unfolding get_secret_key
  IsUnlocked-get_secret_key files keystore_path password_path sk u =
      rw (u.found, check_mode_ok (u.mode % 512) u.private, u.read, u.decrypted, u.parsed) refl

  get_secret_key-IsUnlocked :
      (files : Files) (keystore_path password_path : List Text) (sk : crypto.SecretKey)
      (pk : crypto.PublicKey)
      → get_secret_key files keystore_path password_path ≡ ok (sk, pk)
      → IsUnlocked files keystore_path password_path sk × (pk ≡ crypto.from_secret_key sk)
  unfolding get_secret_key
  get_secret_key-IsUnlocked files keystore_path password_path sk pk h =
      ok_or_bind-elim (files.mode password_path) find_file _ h λ mode found h1.
        bind-elim (check_mode (mode % 512)) _ h1 λ u checked h2.
          ok_or_bind-elim (files.read_to_string password_path) read_password_file _ h2
            λ password read h3.
              ok_or_bind-elim (files.decrypt_key keystore_path (trim password)) decrypt_keystore _
                h3
                λ key decrypted h4.
                  ok_or_bind-elim (crypto.parse_secret_key key) parse_secret_key _ h4
                    λ sk' parsed h5.
                      let both = ok-injective h5 in
                      let same : sk' ≡ sk =
                        ap (λ (p : crypto.SecretKey × crypto.PublicKey). p.0) both in
                      (
                        record {
                          mode = mode;
                          password = password;
                          key = key;
                          found = found;
                          private = checked_mode (mode % 512) checked;
                          read = read;
                          decrypted = decrypted;
                          parsed = parsed ∙ ap some same;
                        },
                        sym (ap (λ (p : crypto.SecretKey × crypto.PublicKey). p.1) both)
                            ∙ ap crypto.from_secret_key same,
                      )

  -- A server gets a secret key exactly when its password file may be read by its owner and
  -- nothing else, and the file's text without the white space around it decrypts the key file to
  -- a secret key; the public key that comes with it is its own.
  pub get_secret_key_iff :
      (files : Files) (keystore_path password_path : List Text) (sk : crypto.SecretKey)
      (pk : crypto.PublicKey)
      → (get_secret_key files keystore_path password_path ≡ ok (sk, pk))
        ↔ (IsUnlocked files keystore_path password_path sk × (pk ≡ crypto.from_secret_key sk))
  get_secret_key_iff files keystore_path password_path sk pk = (
    get_secret_key-IsUnlocked files keystore_path password_path sk pk,
    λ (u, e).
        IsUnlocked-get_secret_key files keystore_path password_path sk u
        ∙ ap (λ k. ok (sk, k)) (sym e),
  )
