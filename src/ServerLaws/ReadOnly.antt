-- ===== src/ServerLaws/ReadOnly.antt =====
-- The server (internal/server/server.go) verifies a request without changing
-- the application.
use sg_emulator.App.{App}
use sg_emulator.Server.{Request, Environment, Draw, signature_verifier, verify}
use sg_emulator.AppLaws.Preserves.{Preserves, rules}
use sg_emulator.VerifyLaws.ReadOnly.{
  verify_envelope_data-Preserves, verify_create_account-Preserves, verify_get_account-Preserves,
  verify_transfer-Preserves, verify_mint_token-Preserves, verify_transfer_token-Preserves,
  verify_authorize-Preserves, verify_unauthorize-Preserves, verify_burn_token-Preserves,
  verify_clawback_token-Preserves, verify_freeze-Preserves, verify_unfreeze-Preserves,
  verify_lookup_token-Preserves,
}

module _ (env : Environment) (draw : Draw) where
  pub verify-Preserves : (I : App → Type 0) (r : Request) → Preserves I (verify env draw r)
  unfolding verify
  verify-Preserves I (Request.transfer r) =
      verify_transfer-Preserves I env.crypto (signature_verifier env draw) env.ca_key env.json
        (verify_envelope_data-Preserves I env.crypto env.verifier draw.cert_time draw.now) r
  verify-Preserves I (Request.create_account r) =
      verify_create_account-Preserves I env.crypto (signature_verifier env draw) env.ca_key env.json
        (verify_envelope_data-Preserves I env.crypto env.verifier draw.cert_time draw.now) r
  verify-Preserves I (Request.get_account r) =
      verify_get_account-Preserves I env.crypto (signature_verifier env draw) env.ca_key env.json
        (verify_envelope_data-Preserves I env.crypto env.verifier draw.cert_time draw.now) r
  verify-Preserves I (Request.mint_token r) =
      verify_mint_token-Preserves I env.crypto (signature_verifier env draw) env.ca_key env.json
        (verify_envelope_data-Preserves I env.crypto env.verifier draw.cert_time draw.now) r
  verify-Preserves I (Request.authorize_token_transfer r) =
      verify_authorize-Preserves I env.crypto (signature_verifier env draw) env.ca_key env.json
        (verify_envelope_data-Preserves I env.crypto env.verifier draw.cert_time draw.now) r
  verify-Preserves I (Request.unauthorize_token_transfer r) =
      verify_unauthorize-Preserves I env.crypto (signature_verifier env draw) env.ca_key env.json
        (verify_envelope_data-Preserves I env.crypto env.verifier draw.cert_time draw.now) r
  verify-Preserves I (Request.transfer_token r) =
      verify_transfer_token-Preserves I env.crypto (signature_verifier env draw) env.ca_key env.json
        (verify_envelope_data-Preserves I env.crypto env.verifier draw.cert_time draw.now) r
  verify-Preserves I (Request.clawback_token r) =
      verify_clawback_token-Preserves I env.crypto (signature_verifier env draw) env.ca_key env.json
        (verify_envelope_data-Preserves I env.crypto env.verifier draw.cert_time draw.now) r
  verify-Preserves I (Request.burn_token r) =
      verify_burn_token-Preserves I env.crypto (signature_verifier env draw) env.ca_key env.json
        (verify_envelope_data-Preserves I env.crypto env.verifier draw.cert_time draw.now) r
  verify-Preserves I (Request.lookup_token r) =
      verify_lookup_token-Preserves I env.crypto (signature_verifier env draw) env.ca_key env.json
        (verify_envelope_data-Preserves I env.crypto env.verifier draw.cert_time draw.now) r
  verify-Preserves I (Request.freeze_token r) =
      verify_freeze-Preserves I env.crypto (signature_verifier env draw) env.ca_key env.json
        (verify_envelope_data-Preserves I env.crypto env.verifier draw.cert_time draw.now) r
  verify-Preserves I (Request.unfreeze_token r) =
      verify_unfreeze-Preserves I env.crypto (signature_verifier env draw) env.ca_key env.json
        (verify_envelope_data-Preserves I env.crypto env.verifier draw.cert_time draw.now) r
  verify-Preserves I (Request.mint r) = search rules
  verify-Preserves I Request.account_count = search rules
  verify-Preserves I Request.get_accounts = search rules
  verify-Preserves I (Request.admin_create_account b) = search rules
  verify-Preserves I (Request.admin_mint r) = search rules
  verify-Preserves I Request.other = search rules
