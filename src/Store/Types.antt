-- ===== src/Store/Types.antt =====
-- pkg/zhiplugin/store/store.go and pkg/zhiplugin/store/errors.go: the types of the store
-- interface, and its errors. A nil pointer to options is `none`.
use zhi.Common.{◌++◌, [], ◌==◌, if◌then◌else◌, Text, Bool, true, false, bytes, List, Map}

pub data EncryptionStatus : Type 0 where
  encryption_none : EncryptionStatus
  encryption_supported : EncryptionStatus
  encryption_active : EncryptionStatus
  other_encryption : EncryptionStatus

unfoldable pub encryption_string : EncryptionStatus → Text
encryption_string encryption_none = bytes "none"
encryption_string encryption_supported = bytes "supported"
encryption_string encryption_active = bytes "active"
encryption_string other_encryption = bytes "unknown"

pub data VersioningMode : Type 0 where
  versioning_none : VersioningMode
  versioning_tree : VersioningMode
  versioning_value : VersioningMode
  other_versioning : VersioningMode

unfoldable pub versioning_string : VersioningMode → Text
versioning_string versioning_none = bytes "none"
versioning_string versioning_tree = bytes "tree"
versioning_string versioning_value = bytes "value"
versioning_string other_versioning = bytes "unknown"

pub record Capabilities : Type 0 where
  pub versioning : VersioningMode
  pub encryption : EncryptionStatus
  pub auth : Bool
  pub access_control : Bool

pub record AuthField : Type 0 where
  pub name : Text
  pub description : Text
  pub required : Bool
  pub secret : Bool

pub record AuthMethod : Type 0 where
  pub method_type : Text
  pub description : Text
  pub fields : List AuthField
  pub interactive : Bool

pub record InteractiveChallenge : Type 0 where
  pub challenge_id : Text
  pub auth_url : Text
  pub expires_at : Text

pub record PutOptions : Type 0 where
  pub cas_version : Text
  pub cas_versions : Map Text

pub data Action : Type 0 where
  action_read : Action
  action_write : Action
  action_delete : Action
  other_action : Action

unfoldable pub action_string : Action → Text
action_string action_read = bytes "read"
action_string action_write = bytes "write"
action_string action_delete = bytes "delete"
action_string other_action = bytes "unknown"

pub record Permission : Type 0 where
  pub path : Text
  pub actions : List Action

-- The errors of errors.go; `wrapped` is fmt.Errorf with %w, and `failure` any other error.
pub data StoreError : Type 0 where
  cas_conflict : (path expected actual : Text) → StoreError
  needs_auth : Text → StoreError
  access_denied : (path action : Text) → StoreError
  path_not_found : (tree path : Text) → StoreError
  encryption_not_initialized : StoreError
  not_supported : Text → StoreError
  wrapped : Text → StoreError → StoreError
  failure : Text → StoreError

-- errors.As: the test of an error, or of one in its chain.
unfoldable pub in_chain : (StoreError → Bool) → StoreError → Bool
in_chain test (wrapped message e) = in_chain test e
in_chain test (cas_conflict path expected actual) = test (cas_conflict path expected actual)
in_chain test (needs_auth reason) = test (needs_auth reason)
in_chain test (access_denied path action) = test (access_denied path action)
in_chain test (path_not_found tree path) = test (path_not_found tree path)
in_chain test encryption_not_initialized = test encryption_not_initialized
in_chain test (not_supported feature) = test (not_supported feature)
in_chain test (failure message) = test (failure message)

unfoldable pub is_cas_conflict : StoreError → Bool
unfolding in_chain
is_cas_conflict e = in_chain (λ x. elim x [ cas_conflict p a b ↦ true | _ ↦ false ]) e

unfoldable pub is_auth_required : StoreError → Bool
unfolding in_chain
is_auth_required e = in_chain (λ x. elim x [ needs_auth r ↦ true | _ ↦ false ]) e

unfoldable pub is_access_denied : StoreError → Bool
unfolding in_chain
is_access_denied e = in_chain (λ x. elim x [ access_denied p a ↦ true | _ ↦ false ]) e

unfoldable pub is_path_not_found : StoreError → Bool
unfolding in_chain
is_path_not_found e = in_chain (λ x. elim x [ path_not_found t p ↦ true | _ ↦ false ]) e

unfoldable pub is_not_supported : StoreError → Bool
unfolding in_chain
is_not_supported e = in_chain (λ x. elim x [ not_supported f ↦ true | _ ↦ false ]) e

-- The messages of the errors; strconv.Quote is an argument.
unfoldable pub error_message : (Text → Text) → StoreError → Text
error_message quote (cas_conflict path expected actual) =
    let versions =
      bytes ": expected version " ++ (quote expected ++ (bytes ", actual " ++ quote actual)) in
    if path == []
    then bytes "CAS conflict" ++ versions
    else bytes "CAS conflict on " ++ (quote path ++ versions)
error_message quote (needs_auth reason) =
    if reason == []
    then bytes "authentication required"
    else bytes "authentication required: " ++ reason
error_message quote (access_denied path action) =
    if path == []
    then bytes "access denied: " ++ action
    else bytes "access denied: " ++ (action ++ (bytes " on " ++ quote path))
error_message quote (path_not_found tree path) =
    bytes "path " ++ (quote path ++ (bytes " not found in tree " ++ quote tree))
error_message quote encryption_not_initialized = bytes "encryption not initialized"
error_message quote (not_supported feature) = feature ++ bytes " not supported"
error_message quote (wrapped message e) =
    let inner = error_message quote e in message ++ (bytes ": " ++ inner)
error_message quote (failure message) = message

unfoldable pub is_encryption_not_initialized : StoreError → Bool
unfolding in_chain
is_encryption_not_initialized e =
    in_chain (λ x. elim x [ encryption_not_initialized ↦ true | _ ↦ false ]) e
