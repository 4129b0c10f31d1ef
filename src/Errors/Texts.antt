-- ===== src/Errors/Texts.antt =====
-- The texts of errors: the strings of util/errors/codes.go, and `customError` of util/errors/errors.go.
use Prim.Native.String.{◌++◌ as concat}
use fabric_snaps.Common.{String}
use fabric_snaps.Errors.{
  ErrorCode, panic_error, system_error, general_error, missing_required_parameter_error,
  validation_error, initialize_config_error, initialize_logging_error, missing_config_data_error,
  invalid_config_data_error, crypto_config_error, crypto_error, parse_cert_error, import_key_error,
  get_key_error, unmarshal_error, invalid_function_error, initialize_snap_error, peer_config_error,
  acl_check_error, membership_error, invalid_config_message, invalid_peer_config,
  invalid_app_config, invalid_component_config, invalid_config_key, get_config_error,
  http_client_error, invalid_cert_pin_error, endorse_tx_error, commit_tx_error,
  invalid_creator_error, invalid_signature_error, get_tx_service_error, tx_client_init_error,
  data_not_found_error, access_denied_error,
}

abbrev pub code_text : ErrorCode → String
code_text panic_error = "panic-error"
code_text system_error = "system-error"
code_text general_error = "general-error"
code_text missing_required_parameter_error = "missing-required-parameter"
code_text validation_error = "validation-error"
code_text initialize_config_error = "initialize-config-error"
code_text initialize_logging_error = "initialize-logging-error"
code_text missing_config_data_error = "missing-config-data-error"
code_text invalid_config_data_error = "invalid-config-data-error"
code_text crypto_config_error = "crypto-config-error"
code_text crypto_error = "crypto-error"
code_text parse_cert_error = "parse-cert-error"
code_text import_key_error = "import-key-error"
code_text get_key_error = "get-key-error"
code_text unmarshal_error = "unmarshal-error"
code_text invalid_function_error = "invalid-function-error"
code_text initialize_snap_error = "initialize-snap-error"
code_text peer_config_error = "peer-config-error"
code_text acl_check_error = "acl-check-error"
code_text membership_error = "membership-error"
code_text invalid_config_message = "invalid-config-message"
code_text invalid_peer_config = "invalid-peer-config"
code_text invalid_app_config = "invalid-app-config"
code_text invalid_component_config = "invalid-component-config"
code_text invalid_config_key = "invalid-config-key"
code_text get_config_error = "get-config-error"
code_text http_client_error = "http-client-error"
code_text invalid_cert_pin_error = "invalid-cert-pin-error"
code_text endorse_tx_error = "endorse-tx-error"
code_text commit_tx_error = "commit-tx-error"
code_text invalid_creator_error = "invalid-creator-error"
code_text invalid_signature_error = "invalid-signature-error"
code_text get_tx_service_error = "get-tx-service-error"
code_text tx_client_init_error = "tx-client-init-error"
code_text data_not_found_error = "data-not-found-error"
code_text access_denied_error = "access-denied-error"

-- `customError`, with the text of the error that it embeds
pub record CustomError : Type 0 where
  pub error : String
  pub error_code : ErrorCode
  pub error_id : String

-- `GenerateClientErrorMsg`
abbrev pub generate_client_error_msg : CustomError → String
generate_client_error_msg e = concat "errorID:" (
    concat e.error_id
      (concat " errorCode:" (concat (code_text e.error_code) (concat " error:" e.error))))

-- `WithMessage` on an error with a text, for the ID that is generated
abbrev pub with_message : ErrorCode → String → String → String → CustomError
with_message code error_id error msg = record {
  error = concat msg (concat ": " error);
  error_code = code;
  error_id = error_id;
}
