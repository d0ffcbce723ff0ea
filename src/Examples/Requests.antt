-- ===== src/Examples/Requests.antt =====
-- The relay's theorems at work.
use iscp.Prelude.{
  ◌≡◌, ◌≢◌, refl, String, true, false, some, [], ◌∷◌, to_bytes, trim_space, trim_left, trim_right,
  is_blank, bytes_eq, string_eq, ◌==◌, arith,
}
use iscp.Prelude.Int.{pos}
use iscp.Prelude.Map
use iscp.Prelude.Map.{get-put, get-empty}
use iscp.Errors.{ok}
use iscp.Effect.{next, ◌>>=◌, ◌>>◌, read, on_error, finish, update, stop_if, pure_call, attempt}
use iscp.Relay.{
  Credential, serve, new_state, credentials, write_json, in_repo, status_text, EnvelopeMeta,
}
use iscp.Relay.Requests.{admin_authorized, admin_credential, bearer_token, after_bearer}
use iscp.Relay.Connect.{Peer, connect}
use iscp.Relay.Delivery.{validate_envelope_meta}
use iscp.Relay.Delivery.Bounds.{validate_envelope_meta_iff}
use iscp.Relay.Runs.Revoked.{IsRefused, connect-revoke_access}
use iscp.Relay.Runs.Refinement.{verdicts, store_verdicts, verdicts-refine}
use iscp.Provisioning.Store.{new_ticket_store}
use iscp.Relay.Credentials.{
  hash_of, refresh_with, refresh_access, revoke_access, find_refresh, required, issue_credentials,
  store_credentials, revoke_refresh_credential, access_for, refresh_for, revoke_with, check_revoker,
  authenticate_access,
}
use iscp.Relay.Runs.{request, run}
use iscp.Relay.Runs.Refresh.{refresh_access-once, invalid_refresh}
use iscp.Examples.Relay.{library, config, post, at_time, refresh_credential, started, no_proof}

abbrev lamp_meta : EnvelopeMeta
lamp_meta = record {
  domain_id = "home";
  message_id = "m";
  sender_device_id = "phone";
  recipient_device_id = "lamp";
  ttl_seconds = pos 60;
  priority = pos 3;
}

lamp_access : Credential
lamp_access = access_for library config "home" "lamp" (at_time 5 "n")

lamp_refresh : Credential
lamp_refresh = refresh_for library config "home" "lamp" (at_time 5 "n")

held : Map.get started.refresh (to_bytes "r") ≡ some refresh_credential
unfolding to_bytes
held = get-put Map.empty (to_bytes "r") (to_bytes "r") refresh_credential

refreshed :
    (refresh_access library config post (at_time 5 "n") started).1
    ≡ next (write_json 200 (credentials lamp_access lamp_refresh))
unfolding refresh_access refresh_with ◌>>=◌ ◌>>◌ read on_error finish stop_if pure_call update
    find_refresh required issue_credentials store_credentials revoke_refresh_credential in_repo
    hash_of new_state lamp_access lamp_refresh iscp.Server.Httpx.decode_json
refreshed = rw held refl

fresh : (token : String) → (to_bytes token == to_bytes "r") ≡ false → to_bytes token ≢ to_bytes "r"
fresh token h e = cc (h, (bytes_eq.beq_iff (to_bytes token) (to_bytes "r")).1 e)

-- Between the two, the device's credentials are revoked and a connection is tried.
refresh_access-once_example :
    (serve (refresh_access library config post (at_time 9 "p")) (
      run library config
        (request post (at_time 7 "o") ∷ [])
        (refresh_access library config post (at_time 5 "n") started).0)).1
    ≡ invalid_refresh
unfolding hash_of iscp.Server.Httpx.decode_json to_bytes
refresh_access-once_example =
    refresh_access-once library config "r" post post (at_time 5 "n") (at_time 9 "p") started
      refresh_credential (write_json 200 (credentials lamp_access lamp_refresh))
      (request post (at_time 7 "o") ∷ []) refl refl held refreshed (fresh "n" refl)
      (fresh "o" refl, tt) refl refl

revoked :
    (revoke_access library config post (at_time 5 "n") started).1
    ≡ next (write_json 200 (status_text "revoked"))
unfolding revoke_access revoke_with check_revoker authenticate_access attempt admin_authorized
    admin_credential bearer_token after_bearer trim_space trim_left trim_right ◌>>=◌ ◌>>◌ read
    on_error finish stop_if pure_call update in_repo new_state iscp.Server.Httpx.decode_json
revoked = refl

lamp_peer : Peer
lamp_peer = record {
  upgrades = true;
  takes_challenge = true;
  answer = λ challenge. some no_proof;
  receives = 9;
}

connect-revoke_access_example :
    IsRefused
      (connect library config lamp_peer
        (record post { method = "GET" })
        (at_time 9 "p")
        (run library config
          (request post (at_time 7 "o") ∷ [])
          (revoke_access library config post (at_time 5 "n") started).0)).1
unfolding iscp.Server.Httpx.decode_json lamp_peer
connect-revoke_access_example =
    connect-revoke_access library config post (record post { method = "GET" }) (at_time 5 "n")
      (at_time 9 "p") started (write_json 200 (status_text "revoked"))
      (request post (at_time 7 "o") ∷ []) lamp_peer no_proof refl refl revoked refl

validate_envelope_meta_iff_example : validate_envelope_meta config lamp_meta ≡ ok tt
unfolding is_blank
validate_envelope_meta_iff_example =
    (validate_envelope_meta_iff config lamp_meta).1
      (refl, refl, refl, refl, omega arith, omega arith, omega arith, omega arith)

verdicts-refine_example :
    verdicts Map.empty (("t", pos 2) ∷ ("t", pos 1) ∷ ("u", pos 1) ∷ [])
    ≡ store_verdicts new_ticket_store (("t", pos 2) ∷ ("t", pos 1) ∷ ("u", pos 1) ∷ [])
verdicts-refine_example =
    verdicts-refine (("t", pos 2) ∷ ("t", pos 1) ∷ ("u", pos 1) ∷ []) (refl, (refl, (refl, tt)))
