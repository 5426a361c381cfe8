-- ===== src/Verify/External.antt =====
-- What the program takes from elsewhere: SHA-1 and Ed25519 (internal/crypto/hash.go calls the
-- former), X.509 certificates, and the JSON text of each payload (Bytes in
-- internal/crypto/signer.go).
use sg_emulator.Base.{Bool, Option}
use sg_emulator.Base.Bytes.{Bytes}
use sg_emulator.Base.Int.{ℤ}
use sg_emulator.Requests.{
  TransferPayload, CreateAccountPayload, GetAccountPayload, MintTokenPayload, BurnTokenPayload,
  TokenPayload, AuthorizePayload, FreezePayload, LookupTokenPayload, SubscribePayload,
}

pub record Crypto : Type 0 where
  -- `sha1.Sum` of a public key
  pub derive_account_id : Bytes → Bytes
  -- `ed25519.Verify(key, message, signature)`
  pub ed25519_verify : Bytes → Bytes → Bytes → Bool
  -- `cert.PublicKey.(ed25519.PublicKey)`
  pub certificate_key : Bytes → Option Bytes
  -- `cert.Verify` with one root, at a time, for client authentication
  pub chain_verifies : (root cert : Bytes) (time : ℤ) → Bool

pub record PayloadBytes : Type 0 where
  pub transfer : TransferPayload → Bytes
  pub create_account : CreateAccountPayload → Bytes
  pub get_account : GetAccountPayload → Bytes
  pub mint_token : MintTokenPayload → Bytes
  pub burn_token : BurnTokenPayload → Bytes
  pub transfer_token : TokenPayload → Bytes
  pub clawback_token : TokenPayload → Bytes
  pub authorize : AuthorizePayload → Bytes
  pub unauthorize : AuthorizePayload → Bytes
  pub freeze : FreezePayload → Bytes
  pub unfreeze : FreezePayload → Bytes
  pub lookup_token : LookupTokenPayload → Bytes
  pub subscribe : SubscribePayload → Bytes
