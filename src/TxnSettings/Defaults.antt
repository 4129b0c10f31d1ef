-- ===== src/TxnSettings/Defaults.antt =====
-- The settings with defaults of transactionsnap/pkg/config/config.go, and the retry codes of chaincode
-- errors.
use fabric_snaps.Common.{
  ℕ, String, ◌==◌, List, [], ◌∷◌, ◌++◌, if◌then◌else◌, ℤ, pos, is_zero, to_int32,
}
use fabric_snaps.Errors.{
  Result, ok, err, ◌>>=◌, or_err, crypto_config_error, invalid_config_data_error,
}
use fabric_snaps.TxnSettings.{Library, RetryOpts, TxnSnapConfig}

abbrev pub or_default : ℤ → ℤ → ℤ
or_default value default = if is_zero value then default else value

module _ {Float Cert : Type 0} (library : Library Float Cert) where
  unfoldable pub get_crypto_provider : TxnSnapConfig Float → Result String
  get_crypto_provider c =
      let crypto_provider = c.peer_config.get_string "peer.BCCSP.Default" in
      if crypto_provider == "" then err crypto_config_error else ok crypto_provider

  unfoldable pub get_endorser_selection_max_attempts : TxnSnapConfig Float → ℤ
  get_endorser_selection_max_attempts c =
      or_default (c.txn_snap_config.get_int "txnsnap.selection.maxattempts") (pos 1)

  unfoldable pub get_endorser_selection_interval : TxnSnapConfig Float → ℤ
  get_endorser_selection_interval c =
      or_default (c.txn_snap_config.get_duration "txnsnap.selection.interval") (pos 1000000000)

  unfoldable pub get_client_cache_refresh_interval : TxnSnapConfig Float → ℤ
  get_client_cache_refresh_interval c =
      or_default (c.txn_snap_config.get_duration "txnsnap.cache.refreshInterval") (pos 60000000000)

  -- `RetryOpts`, for the SDK's defaults
  unfoldable pub retry_opts : RetryOpts Float → TxnSnapConfig Float → RetryOpts Float
  retry_opts defaults c =
      let factor = c.txn_snap_config.get_float64 "txnsnap.retry.backofffactor" in
      record {
        attempts =
            or_default (c.txn_snap_config.get_int "txnsnap.retry.attempts") defaults.attempts;
        initial_backoff =
            or_default (c.txn_snap_config.get_duration "txnsnap.retry.initialbackoff")
              defaults.initial_backoff;
        max_backoff =
            or_default (c.txn_snap_config.get_duration "txnsnap.retry.maxbackoff")
              defaults.max_backoff;
        backoff_factor = if library.float_is_zero factor then defaults.backoff_factor else factor;
      }

  -- The loop of `CCErrorRetryableCodes`
  unfoldable pub parse_codes : List String → List ℕ → Result (List ℕ)
  parse_codes [] codes = ok codes
  parse_codes (code_string ∷ code_strings) codes =
      or_err (library.atoi code_string) invalid_config_data_error >>= λ code.
      parse_codes code_strings (codes ++ to_int32 code ∷ [])

  -- `CCErrorRetryableCodes`
  unfoldable pub cc_error_retryable_codes : TxnSnapConfig Float → Result (List ℕ)
  cc_error_retryable_codes c =
      parse_codes (c.txn_snap_config.get_string_slice "txnsnap.retry.ccErrorCodes") []
