-- ===== src/Hal/Error.antt =====
-- The packed error type of components/blusys/include/blusys/hal/error.h, the domains of
-- components/blusys/include/blusys/observe/error_domain.h, and the translation of ESP-IDF errors in
-- components/blusys/include/blusys/hal/internal/esp_err_shim.h.
use blusys.Base.{ℕ, ◌+◌, ◌*◌, ◌/◌, ◌%◌, ◌^◌, ◌==◌, if◌then◌else◌}

-- `blusys_err_t`, a uint32_t.
abbrev pub BlusysErr : Type 0
BlusysErr = ℕ

abbrev pub ok : BlusysErr
ok = 0

abbrev pub err_invalid_arg : BlusysErr
err_invalid_arg = 1

abbrev pub err_invalid_state : BlusysErr
err_invalid_state = 2

abbrev pub err_not_supported : BlusysErr
err_not_supported = 3

abbrev pub err_timeout : BlusysErr
err_timeout = 4

abbrev pub err_busy : BlusysErr
err_busy = 5

abbrev pub err_no_mem : BlusysErr
err_no_mem = 6

abbrev pub err_io : BlusysErr
err_io = 7

abbrev pub err_not_found : BlusysErr
err_not_found = 8

abbrev pub err_internal : BlusysErr
err_internal = 9

-- `blusys_err_domain_t`, by its numeric values.
abbrev pub err_domain_generic : ℕ
err_domain_generic = 0

abbrev pub err_domain_driver_dht : ℕ
err_domain_driver_dht = 3

abbrev pub err_domain_driver_encoder : ℕ
err_domain_driver_encoder = 4

abbrev pub err_domain_driver_seven_seg : ℕ
err_domain_driver_seven_seg = 5

abbrev pub err_domain_driver_button : ℕ
err_domain_driver_button = 7

abbrev pub err_domain_storage_fs : ℕ
err_domain_storage_fs = 8

abbrev pub err_domain_storage_fatfs : ℕ
err_domain_storage_fatfs = 9

abbrev pub err_domain_count : ℕ
err_domain_count = 14

-- The macros BLUSYS_ERR, BLUSYS_ERR_DOMAIN and BLUSYS_ERR_CODE. The fields of the first do not
-- overlap, so its `|` is a sum; `<< 16` of a uint32_t wraps.
unfoldable pub blusys_err : ℕ → ℕ → BlusysErr
blusys_err domain code = domain * 2 ^ 16 % 2 ^ 32 + code % 2 ^ 16

unfoldable pub err_domain : BlusysErr → ℕ
err_domain err = err / 2 ^ 16 % 2 ^ 16

unfoldable pub err_code : BlusysErr → ℕ
err_code err = err % 2 ^ 16

-- The ESP-IDF errors that the shim names; `other` stands for all the rest.
pub data EspErr : Type 0 where
  esp_ok invalid_arg invalid_size invalid_state not_supported timeout no_mem not_found : EspErr
  invalid_response fail : EspErr
  other : ℕ → EspErr

unfoldable pub translate_esp_err : EspErr → BlusysErr
translate_esp_err EspErr.esp_ok = ok
translate_esp_err EspErr.invalid_arg = err_invalid_arg
translate_esp_err EspErr.invalid_size = err_invalid_arg
translate_esp_err EspErr.invalid_state = err_invalid_state
translate_esp_err EspErr.not_supported = err_not_supported
translate_esp_err EspErr.timeout = err_timeout
translate_esp_err EspErr.no_mem = err_no_mem
translate_esp_err EspErr.not_found = err_not_found
translate_esp_err EspErr.invalid_response = err_io
translate_esp_err EspErr.fail = err_io
translate_esp_err (EspErr.other n) = err_internal

unfoldable pub translate_esp_err_in : ℕ → EspErr → BlusysErr
unfolding blusys_err err_code
translate_esp_err_in domain err =
    let generic = translate_esp_err err in
    if generic == ok then ok else blusys_err domain (err_code generic)
