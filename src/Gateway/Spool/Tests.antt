-- ===== src/Gateway/Spool/Tests.antt =====
-- Tests of the spool's names, and their theorem at a concrete name.
use new_api_gateway.Prelude.{true, false, ◌≡◌, refl}
use new_api_gateway.Text.{all_chars, trim, is_empty, ◌<>◌}
use new_api_gateway.Gateway.Spool.{
  is_kept, replace_unsafe, safe_spool_part, spool_stem, spool_filename,
}
use new_api_gateway.Gateway.Spool.Safe.{spool_filename_safe}

names :
    (spool_filename "../etc/passwd" "a b" ≡ "etc_passwd-a_b.json")
    × (spool_filename "//" "" ≡ "trace.json")
unfolding spool_filename spool_stem safe_spool_part replace_unsafe is_kept trim
names = (refl, refl)

spool_filename_safe_example :
    let stem = spool_stem "../etc" "" in
    (spool_filename "../etc" "" ≡ stem <> ".json")
    × (is_empty stem ≡ false)
    × (all_chars is_kept stem ≡ true)
spool_filename_safe_example = spool_filename_safe "../etc" ""
