-- ===== src/Identity.antt =====
-- secp256k1-id/src/main.rs: the tool that makes the keys of a party.
use mpc_server.Common.{◌≡◌, ◌∙◌, Option, some, Result, ok, Text, ok_or}
use mpc_server.Common.Fallible.{◌>>=◌, ok_or_bind-eq-ok, ok_or-eq-ok, bind-eq-ok}
use mpc_server.External.Crypto.{Crypto, CryptoLaws}
use mpc_server.Transport.Clients.{own_pub_key}

-- The file system, as the tool uses it: `File::create`, `write_all` on a file that was created just
-- now, what a file has, and what a path names. A path is its bytes; different paths may name one
-- file, as links do, and a path may name something that is no regular file.
pub record Disk : Type 1 where
  pub State : Type 0
  pub create : Text → State → Option State
  pub write_all : Text → Text → State → Option State
  pub read : Text → State → Option Text
  pub IsRegular : Text → State → Type 0
  pub IsSameFile : Text → Text → State → Type 0

-- A regular file that has been created has what is written to it. A path that does not name the same
-- file then names what it named before, with what that had.
pub record DiskLaws ⦃disk : Disk⦄ : Type 0 where
  pub written :
      (d d' d'' : disk.State) (path text : Text)
      → disk.create path d ≡ some d'
      → disk.write_all path text d' ≡ some d''
      → disk.IsRegular path d''
      → disk.read path d'' ≡ some text
  pub apart :
      (d d' d'' : disk.State) (path text other : Text)
      → disk.create path d ≡ some d'
      → disk.write_all path text d' ≡ some d''
      → ¬ disk.IsSameFile path other d''
      → disk.IsRegular other d''
      → (disk.read other d'' ≡ disk.read other d) × disk.IsRegular other d

-- `std::io::Error`, without its text
pub data IoError : Type 0 where
  not_created not_written : IoError

-- `Cli` of the tool
pub record IdCli : Type 0 where
  pub secret_key_path : Text
  pub public_key_path : Text

module _ ⦃crypto : Crypto⦄ ⦃disk : Disk⦄ where
  -- One file: it is created, and then written.
  save_text : Text → Text → disk.State → Result IoError disk.State
  save_text path text d = do
    d' ← ok_or (disk.create path d) not_created
    ok_or (disk.write_all path text d') not_written

  -- `main`, with the secret key that was drawn
  unfoldable pub make_keys : crypto.SecretKey → IdCli → disk.State → Result IoError disk.State
  unfolding save_text
  make_keys secret_key args d = do
    let public_key = crypto.from_secret_key secret_key
    d' ← save_text args.secret_key_path (crypto.hex_encode (crypto.secret_bytes secret_key)) d
    save_text args.public_key_path (crypto.hex_encode (crypto.serialize_compressed public_key)) d'

  save_text-inversion :
      (path text : Text) (d d'' : disk.State)
      → save_text path text d ≡ ok d''
      → (d' : disk.State) × (disk.create path d ≡ some d')
        × (disk.write_all path text d' ≡ some d'')
  unfolding save_text
  save_text-inversion path text d d'' h =
      let (d', created, h') = ok_or_bind-eq-ok (disk.create path d) not_created _ h in
      (d', created, ok_or-eq-ok (disk.write_all path text d') not_written h')

  -- The tool has made the files of a secret key, and its two paths name two regular files. Then the
  -- one has the secret key in hex, and the other the text that a server with this secret key goes
  -- by, which is the hex of a public key that parses to the server's.
  pub make_keys-own_pub_key :
      DiskLaws
      → CryptoLaws
      → (sk : crypto.SecretKey) (args : IdCli) (d d' : disk.State)
      → disk.IsRegular args.secret_key_path d'
      → disk.IsRegular args.public_key_path d'
      → ¬ disk.IsSameFile args.public_key_path args.secret_key_path d'
      → make_keys sk args d ≡ ok d'
      → (disk.read args.secret_key_path d' ≡ some (crypto.hex_encode (crypto.secret_bytes sk)))
        × (disk.read args.public_key_path d' ≡ some (own_pub_key sk))
        × (compressed : Text) × (crypto.hex_decode (own_pub_key sk) ≡ some compressed)
        × (crypto.parse_public_key compressed ≡ some (crypto.from_secret_key sk))
  unfolding make_keys
  make_keys-own_pub_key files keys sk args d d' s_regular p_regular distinct made =
      let (d1, first, second) = bind-eq-ok (save_text args.secret_key_path _ d) _ made in
      let (s, s_created, s_written) = save_text-inversion args.secret_key_path _ d d1 first in
      let (p, p_created, p_written) = save_text-inversion args.public_key_path _ d1 d' second in
      let (kept, was_regular) =
        files.apart d1 p d' args.public_key_path _ args.secret_key_path p_created p_written distinct
          s_regular in
      (
        kept ∙ files.written d s d1 args.secret_key_path _ s_created s_written was_regular,
        files.written d1 p d' args.public_key_path _ p_created p_written p_regular,
        crypto.serialize_compressed (crypto.from_secret_key sk),
        keys.hex_round_trip _,
        keys.parse_compressed (crypto.from_secret_key sk),
      )
