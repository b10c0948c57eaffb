-- ===== src/Tests/Licenses.antt =====
-- Licenses at concrete inputs.
use go_devops_platform.Base.{ℕ, ◌≡◌, refl, String, true, false, [], ◌∷◌, ok, is_ok}
use go_devops_platform.Base.Int.{pos}
use go_devops_platform.Storage.Memory.{MemoryStorage, memory, empty}
use go_devops_platform.Licensing.Host.{
  Host, no_document, no_compute, get_license_key_from_file, get_license,
}
use go_devops_platform.Licensing.Azure.{get_max_users_azure}
use go_devops_platform.Licensing.Limits.{max_users_of}
use go_devops_platform.Licensing.Keys.{max_users_of_unlicensed}

azure_tests :
    (get_max_users_azure "Standard_D4s_v3" ≡ pos 100)
    × (get_max_users_azure "Standard_B" ≡ pos 3)
    × (get_max_users_azure "" ≡ pos 3)
unfolding get_max_users_azure
azure_tests = (refl, refl, refl)

-- A machine on Azure; the license server answers with the status of the argument.
abbrev host : ℕ → Host
host status = record {
  send = λ request. ok (record { status = status; body = ""; is_complete = true });
  decode_document = λ response. ok no_document;
  decode_license = λ response. ok (pos 40);
  decode_metadata = λ b. ok no_compute;
  decode_compute = λ b. ok (record no_compute { vm_id = "vm" });
  random_bytes = λ n. ok (1 ∷ []);
  encode_base64 = λ b. "key";
  sha256_hex = λ s. "hash";
  to_bytes = λ s. 107 ∷ [];
  to_text = λ b. "key";
}

abbrev stored : MemoryStorage
stored = (get_license_key_from_file memory (host 200) empty).1

no_license : (key : String) → is_ok (get_license (host 404) key) ≡ false
unfolding get_license
no_license key = refl

max_users_of_unlicensed_example : (max_users_of (host 404) memory "gcp" "instance" empty).0 ≡ pos 3
max_users_of_unlicensed_example =
    max_users_of_unlicensed memory (host 404) "gcp" "instance" empty no_license refl
