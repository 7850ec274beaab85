-- ===== src/Snapshot/Tests.antt =====
-- Names of stored snapshots, and directories that hold them.
use etcd_cloud_operator.Prelude.{
  Text, codes, ℕ, pos, negsuc, lt_int, true, false, some, [], ◌∷◌, ok, err, ◌≡◌, ◌⊎◌, refl,
  parse_int, arith, lookup, hex16, hex_digits, parse_digits, hex_value, cut, split_n,
  insertion_sort, insert_sorted,
}
use etcd_cloud_operator.Snapshot.{Metadata, file, new_metadata, filename, less}
use etcd_cloud_operator.Snapshot.Filename.{new_metadata-filename}
use etcd_cloud_operator.Snapshot.Latest.{no_snapshot, by_insertion, latest}
use etcd_cloud_operator.Snapshot.File.{FileInfo, Directory, SaveEnv, info, collect}
use etcd_cloud_operator.Snapshot.File.Info.{Stores, info-greatest, info_total}
use etcd_cloud_operator.Snapshot.File.Laws.{Saved, save-Saved}

abbrev at_ten : Metadata
at_ten = record { name = codes "a"; revision = pos 10; size = negsuc 0; source = file }

abbrev stored_name : Text
stored_name = codes "a_000000000000000A_etcd.backup"

new_metadata-filename_example :
    new_metadata (filename at_ten) (negsuc 0) (pos 5) file
    ≡ ok (record { name = filename at_ten; revision = pos 10; size = pos 5; source = file })
new_metadata-filename_example =
    new_metadata-filename at_ten 10 0 (pos 5) file refl (omega arith) (refl, tt)

abbrev of_host : Metadata
of_host = record { name = codes "a_b"; revision = pos 10; size = negsuc 0; source = file }

abbrev plain_file : ℕ → FileInfo
plain_file mod_time = record { is_dir = false; size = 5; mod_time = mod_time }

abbrev files : Directory
files = (filename at_ten, plain_file 3) ∷ []

abbrev found : Metadata
found = record { name = filename at_ten; revision = pos 10; size = pos 5; source = file }

info-greatest_example :
    ∥ Stores files found ∥₁ × ((n : Metadata) → Stores files n → lt_int (pos 10) n.revision ≡ false)
unfolding info collect new_metadata filename hex16 hex_digits parse_int parse_digits hex_value cut
    split_n latest insertion_sort insert_sorted less lt_int
info-greatest_example = info-greatest by_insertion files found refl

info_total_example :
    ((m : Metadata) × (info by_insertion (some files) ≡ ok m))
    ⊎ ((info by_insertion (some files) ≡ err no_snapshot) × ((m : Metadata) → ¬ Stores files m))
unfolding info collect new_metadata filename hex16 hex_digits parse_int parse_digits hex_value cut
    split_n latest insertion_sort insert_sorted less lt_int
info_total_example = info_total by_insertion files ((λ d h. cc), tt)

abbrev working : SaveEnv
working = record { temp_suffix = some (codes "1"); copied = some 5; renamed = true; now = 20 }

save-Saved_example : Saved working at_ten []
unfolding lookup
save-Saved_example = save-Saved working at_ten [] (λ suffix e. refl)
