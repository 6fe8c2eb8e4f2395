-- ===== src/Errors.antt =====
-- include/storage/storage_errors.hpp and include/storage/lib/exceptions: error codes, the
-- descriptor that a call returns, and how an exception becomes a descriptor.
use Prim.Native.String.{String}
use yet_another_storage.Prelude.{ℕ, ◌≡◌, ◌≢◌, refl, Bool, true, false, arith, if◌then◌else◌}

pub data StorageError : Type 0 where
  success device_general_error device_read_error device_write_error device_expand_error :
      StorageError
  inverted_index_deserialization_error : StorageError
  inverted_index_deserialization_version_unsupported_error : StorageError
  corrupted_header_error invalid_pv_signature_error key_not_found key_expired : StorageError
  key_doesnt_expired pv_mount_point_manager_adapter_not_ready incorrect_storage_value : StorageError
  key_already_created pv_version_unsupported unknown_error catalog_not_found_error : StorageError
  memory_not_enough path_not_found pv_not_found unknown_exception_type : StorageError

-- The numeric value of the enumeration.
abbrev pub error_value : StorageError → ℕ
error_value success = 0
error_value device_general_error = 1
error_value device_read_error = 2
error_value device_write_error = 3
error_value device_expand_error = 4
error_value inverted_index_deserialization_error = 5
error_value inverted_index_deserialization_version_unsupported_error = 6
error_value corrupted_header_error = 7
error_value invalid_pv_signature_error = 8
error_value key_not_found = 9
error_value key_expired = 10
error_value key_doesnt_expired = 11
error_value pv_mount_point_manager_adapter_not_ready = 12
error_value incorrect_storage_value = 13
error_value key_already_created = 14
error_value pv_version_unsupported = 15
error_value unknown_error = 16
error_value catalog_not_found_error = 17
error_value memory_not_enough = 18
error_value path_not_found = 19
error_value pv_not_found = 20
error_value unknown_exception_type = 21

pub record StorageErrorDescriptor : Type 0 where
  pub message : String
  pub error_code : StorageError

abbrev pub is_success_code : StorageError → Bool
is_success_code success = true
is_success_code _ = false

-- `operator bool`
unfoldable pub is_success : StorageErrorDescriptor → Bool
is_success d = is_success_code d.error_code

-- What the code throws or lets through: a `YASException`, a standard exception with the text of
-- `what`, or a value that is no exception class.
pub data Exception : Type 0 where
  yas : String → StorageError → Exception
  runtime_error bad_alloc std_exception : String → Exception
  unknown : Exception

-- `ExceptionHandler::Handle`. The flag says whether the message can be copied: the constructor of
-- `std::string` may throw. (For a `YASException` the copy is not guarded, and is taken to succeed.)
unfoldable pub handle : Bool → Exception → StorageErrorDescriptor
handle copies (yas message code) = record { message = message; error_code = code }
handle copies (runtime_error text) =
    if copies
    then record { message = text; error_code = unknown_exception_type }
    else record { message = ""; error_code = memory_not_enough }
handle copies (bad_alloc text) =
    if copies
    then record { message = text; error_code = memory_not_enough }
    else record { message = ""; error_code = memory_not_enough }
handle copies (std_exception text) =
    if copies
    then record { message = text; error_code = unknown_exception_type }
    else record { message = ""; error_code = memory_not_enough }
handle copies unknown = record { message = ""; error_code = unknown_exception_type }

-- An exception that carries no `kSuccess` of its own never becomes a success.
pub handle-is-no-success :
    (copies : Bool) (e : Exception)
    → ((m : String) → e ≢ yas m success)
    → is_success (handle copies e) ≡ false
unfolding handle is_success
handle-is-no-success copies (yas m success) h = absurd (h m refl)
handle-is-no-success copies (yas m _) h = refl
handle-is-no-success copies (runtime_error t) h = ground arith
handle-is-no-success copies (bad_alloc t) h = ground arith
handle-is-no-success copies (std_exception t) h = ground arith
handle-is-no-success copies unknown h = refl
