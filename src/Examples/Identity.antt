-- ===== src/Examples/Identity.antt =====
-- The tool that makes keys at concrete inputs.
use mpc_server.Common.{
  ◌≡◌, ◌≢◌, ◌∙◌, refl, sym, ap, arith, some, ok, [], ◌∷◌, Text, bytes, Map, lookup, insert, remove,
  lookup-insert, text_eq, text_eq_refl, text_eq_iff,
}
use mpc_server.Common.Fallible.{some-injective}
use mpc_server.Identity.{Disk, DiskLaws, IdCli, make_keys, make_keys-own_pub_key}
use mpc_server.Externals.{the_crypto}
use mpc_server.Transport.Clients.{own_pub_key}
use mpc_server.Examples.Instances.{libraries, plain_crypto_laws}
use mpc_server.Examples.Inputs.{alice}

instance abbrev map_disk : Disk
map_disk = record {
  State = Map Text;
  create = λ path d. some (insert path [] d);
  write_all = λ path text d. some (insert path text d);
  read = lookup;
  IsRegular = λ path d. Unit;
  IsSameFile = λ path other d. path ≡ other;
}

lookup_inserted : (k v : Text) (d : Map Text) → lookup k (insert k v d) ≡ some v
lookup_inserted k v d = rw (lookup-insert k k v d, text_eq_refl k) refl

lookup_other : (k j v : Text) (d : Map Text) → k ≢ j → lookup j (insert k v d) ≡ lookup j d
lookup_other k j v d distinct = ground (arith, lookup-insert k j v d, text_eq_iff k j)

map_disk_laws : DiskLaws
map_disk_laws = record {
  written = λ d d' d'' path text created written regular.
      ap (lookup path) (sym (some-injective written)) ∙ lookup_inserted path text d';
  apart = λ d d' d'' path text other created written distinct regular. (
    ap (lookup other) (sym (some-injective written))
        ∙ lookup_other path other text d' distinct
        ∙ ap (lookup other) (sym (some-injective created))
        ∙ lookup_other path other [] d distinct,
    tt,
  );
}

abbrev id_args : IdCli
id_args = record { secret_key_path = bytes "s"; public_key_path = bytes "p" }

abbrev keys : Map Text
keys = (bytes "p", alice) ∷ (bytes "s", alice) ∷ []

made : make_keys alice id_args [] ≡ ok keys
unfolding make_keys insert remove text_eq
made = refl

make_keys-own_pub_key_example :
    (lookup (bytes "s") keys ≡ some alice)
    × (lookup (bytes "p") keys ≡ some (own_pub_key alice))
    × (compressed : Text) × (some (own_pub_key alice) ≡ some compressed)
    × (some compressed ≡ some alice)
unfolding lookup text_eq
make_keys-own_pub_key_example =
    make_keys-own_pub_key map_disk_laws plain_crypto_laws alice id_args [] keys tt tt (ground arith)
      made
