-- ===== src/Relay/Admission.antt =====
-- crates/mews-relay/src/lib.rs: RelayAdmission and SignedAdmissionAuthenticator.
use Prim.Native.String.{◌++◌ as join}
use text.Mathlib.Text.{◌==◌ as str_eq}
use mews.Prelude.{ltb, ◌==◌, ◌&&◌, String, Bool, false, none, some}
use mews.Protocol.Values.{Uid, Time}
use mews.Relay.Frame.{RelayAdmission, RelayIdentity}

-- The text of an ID, that of a time (RFC 3339), and the verification of a signature by a public key.
module _ (id_name : Uid → String) (rfc3339 : Time → String)
    (verify_signature : String → String → String → Bool) where
  unfoldable pub signing_text : RelayAdmission → String
  signing_text a = join "mews-relay-admission-v1\0" (
      join (id_name a.installation_id) (
        join "\0" (
          join a.peer_id (
            join "\0" (
              join a.peer_public_key
                (join "\0" (join a.authority_public_key (join "\0" (rfc3339 a.expires_at)))))))))

  -- RelayAdmission::create, by the signer of the authority.
  unfoldable pub create_admission :
      (String → String) → String → Uid → String → String → Time → RelayAdmission
  unfolding signing_text
  create_admission sign authority installation peer peer_key expires_at =
      let unsigned : RelayAdmission = record {
        installation_id = installation;
        peer_id = peer;
        peer_public_key = peer_key;
        authority_public_key = authority;
        expires_at = expires_at;
        signature = "";
      } in
      record unsigned { signature = sign (signing_text unsigned) }

  unfoldable pub verify_admission : Time → RelayAdmission → Bool
  unfolding signing_text
  verify_admission now a =
      ltb now a.expires_at && verify_signature a.authority_public_key (signing_text a) a.signature

  -- SignedAdmissionAuthenticator::is_enrolled
  unfoldable pub signed_is_enrolled : Time → RelayIdentity → Bool
  unfolding verify_admission
  signed_is_enrolled now i = elim i.admission [
    | none ↦ false
    | some a ↦
        verify_admission now a
        && a.installation_id == i.installation_id
        && str_eq a.peer_id i.peer_id
        && str_eq a.peer_public_key i.public_key
        && str_eq a.authority_public_key i.authority_public_key
  ]
