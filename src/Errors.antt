-- ===== src/Errors.antt =====
-- The error values of the emulator, which the code builds with `fmt.Errorf` or `errors.New`: messages
-- that say the same share a constructor, and the values that a message prints are left out. A
-- constructor with an argument wraps the error that `%w` (or `%v`) cites.

pub data Error : Type 0 where
  -- internal/scalegraph/id.go
  invalid_hex invalid_id_length : Error
  -- internal/scalegraph/account.go
  skip_append unsupported_transaction nonce_mismatch : Error
  insufficient_balance insufficient_for_token insufficient_for_slot insufficient_for_freeze : Error
  token_already_exists token_missing token_not_authorized token_already_owned : Error
  token_is_placeholder token_signed_by_other token_is_frozen token_not_frozen : Error
  sender_should_be_nil receiver_should_be_nil sender_must_be_account not_a_party : Error
  not_freeze_authority not_latest_transaction cannot_rollback_mint : Error
  invalid_token_signer failed_to_mint failed_to_burn : Error → Error
  failed_to_remove failed_to_add rollback_failed : Error → Error
  -- internal/scalegraph/app.go
  account_already_exists account_not_found source_not_found destination_not_found : Error
  token_owner_not_found freeze_authority_not_found token_holder_not_found : Error
  self_transfer token_not_found clawback_address_mismatch : Error
  invalid_signer_id failed_initial_mint : Error → Error
  -- internal/crypto and internal/verifier
  missing_signature signer_mismatch invalid_private_key_size : Error
  invalid_private_key_pem ca_not_available credentials_not_found : Error
  failed_to_sign failed_to_create_request : Error → Error
  invalid_signature payload_mismatch : Error → Error
  field_mismatch certificate_nil certificate_verification_failed : Error
  unsupported_algorithm invalid_signature_size signature_verification_failed : Error
  timestamp_in_future timestamp_too_old account_id_mismatch : Error
  certificate_key_not_ed25519 : Error
  certificate_chain_failed signer_lookup_failed : Error → Error
  -- internal/server
  no_verifier unknown_request_type server_shutting_down : Error
  already_registered k_not_positive request_send_timeout response_timeout context_done : Error
  unexpected_response_type : Error
