-- ===== src/Backup/Secrecy.antt =====
-- backup.py: where the recovery secret goes.
use homekey_household.Prelude.{
  Text, codes, truthy, Dict, lookup, All, true, Option, none, some, List, [], ◌≡◌, ◌⊎◌, refl, sym,
  subst, ℤ, Bool-cases, inl, inr,
}
use homekey_household.Models.Json.{Json}
use homekey_household.Models.Errors.{Error, Result, ok, raise, service_error}
use homekey_household.Models.Values.{Writer, text_of}
use homekey_household.Models.Parts.{>>=-eq-ok, of_ok}
use homekey_household.Command.Encoding.{Bytes}
use homekey_household.Coordinator.Effects.{Result-cases}
use homekey_household.Direct.Connect.{Client, Sent, Traced, Probe, connect_node}
use homekey_household.Direct.Trust.{IsPinned, IsTrusted, connect_node-IsTrusted}
use homekey_household.Direct.Commands.{restore_call, restore_backup}
use homekey_household.Direct.Traces.{
  Sends, after-Sends, Any, sends-Sends, All-weaken, silent-Sends, Sends-sent,
}
use homekey_household.Backup.Store.{BackupStore}
use homekey_household.Backup.Settings.{
  Runtime, required, entry_backup_settings, backup_client_for, running_client,
}
use homekey_household.Backup.Service.{
  Answers, Address, is_transport_error, port_of, address_of, dial, connect, client_for, set_up,
}
use homekey_household.Backup.Outcome.{set_up-some}
use homekey_household.Backup.Restore.{
  get_info, household_of, chosen_blob, user_error, read_back, info_call, restore_on_node,
  restore_blob, restore_runtime, restore_entry,
}

module _ (w : Writer) (sha256 : Bytes → Bytes) (to_int : Json → Result ℤ) (a : Answers) where
  -- The client of the running entry, or one that trusts the certificate whose fingerprint matches the
  -- pinned one of these settings.
  abbrev pub IsKnown : Dict Json → Option Client → Client → Type 0
  IsKnown settings (some running) client = client ≡ running
  IsKnown settings none client =
      (fingerprint : Json) × (required (codes "fingerprint") settings ≡ ok fingerprint)
      × IsPinned w sha256 (text_of w fingerprint) a.peer client

  Sends-trusted :
      (settings : Dict Json) (fingerprint : Json) (t : Traced Probe)
      → required (codes "fingerprint") settings ≡ ok fingerprint
      → IsTrusted w sha256 (text_of w fingerprint) a.peer t
      → Sends (IsKnown settings none) (λ probe. IsKnown settings none probe.client) t
  Sends-trusted settings fingerprint (sent, raise e) named (h, r) =
      All-weaken _ _ sent (λ client pin. (fingerprint, named, pin)) h
  Sends-trusted settings fingerprint (sent, ok probe) named (h, r) = (
    All-weaken _ _ sent (λ client pin. (fingerprint, named, pin)) h,
    (fingerprint, named, r.pinned),
  )

  -- The fingerprint of an address is the one of the settings.
  abbrev Named : Dict Json → Address → Type 0
  Named settings d =
      (j : Json) × (required (codes "fingerprint") settings ≡ ok j) × (text_of w j ≡ d.fingerprint)

  address_of-Named :
      (settings : Dict Json) (d : Address)
      → address_of w sha256 to_int settings ≡ ok d
      → Named settings d
  unfolding address_of
  address_of-Named settings d e =
      let (host, h, e) = >>=-eq-ok (required (codes "host") settings) _ e in
      let (port, p, e) = >>=-eq-ok (port_of w sha256 to_int settings) _ e in
      let (fingerprint, f, e) = >>=-eq-ok (required (codes "fingerprint") settings) _ e in
      let (username, u, e) = >>=-eq-ok (required (codes "username") settings) _ e in
      let (password, q, e) = >>=-eq-ok (required (codes "password") settings) _ e in
      (fingerprint, f, of_ok (λ d. d.fingerprint) e)

  abbrev IsProbed : Dict Json → Probe → Type 0
  IsProbed settings probe = IsKnown settings none probe.client

  dial-Sends :
      (settings : Dict Json) (d : Address)
      → Named settings d
      → Sends (IsKnown settings none) (IsProbed settings) (dial w sha256 to_int d a.peer)
  unfolding dial
  dial-Sends settings d (j, named, same) = Sends-trusted settings j _ named (
      subst
        (λ f.
          IsTrusted w sha256 f a.peer
            (connect_node w sha256 d.host d.port d.fingerprint d.username d.password a.peer))
        (sym same)
        (connect_node-IsTrusted w sha256 d.fingerprint a.peer d.host d.port d.username d.password))

  connect-Sends :
      (settings : Dict Json)
      → Sends (IsKnown settings none) (IsProbed settings) (connect w sha256 to_int settings a.peer)
  unfolding connect
  connect-Sends settings =
      after-Sends (IsKnown settings none) (Named settings) (IsProbed settings)
        ([], address_of w sha256 to_int settings) _
        (silent-Sends (IsKnown settings none) (Named settings) _ (address_of-Named settings))
        (dial-Sends settings)

  abbrev IsClient : Dict Json → Option Client → Client × Option Text → Type 0
  IsClient settings running (client, node_id) = IsKnown settings running client

  client_for-Sends :
      (settings : Dict Json) (node_id : Option Text) (running : Option Client)
      → Sends
          (IsKnown settings running)
          (IsClient settings running)
          (client_for w sha256 to_int settings node_id running a.peer)
  unfolding client_for
  client_for-Sends settings node_id (some client) = (tt, refl)
  client_for-Sends settings node_id none =
      after-Sends (IsKnown settings none) (IsProbed settings) (IsClient settings none) _ _
        (connect-Sends settings) (λ probe known. (tt, known))

  restore_on_node-Sends :
      (settings : Dict Json) (recovery_secret blob : Text) (running : Option Client)
      → Sends
          (IsKnown settings running)
          (IsKnown settings running)
          (restore_on_node w sha256 to_int settings recovery_secret blob running a)
  unfolding restore_on_node restore_backup
  restore_on_node-Sends settings recovery_secret blob running =
      after-Sends (IsKnown settings running) (IsClient settings running) (IsKnown settings running)
        _ _ (client_for-Sends settings none running)
        (λ (client, node_id) known.
          after-Sends (IsKnown settings running) Any (IsKnown settings running) _ _
            (sends-Sends (IsKnown settings running) client (restore_call recovery_secret blob)
              a.restore known)
            (λ answer any. (tt, known)))

  -- A restore of an entry that is set up and configured, whose requests go where they may.
  pub record IsAllowed (runtimes : Dict Runtime) (entry_id recovery_secret : Text)
      (sent : List Sent) : Type 0 where
    pub secret : truthy recovery_secret ≡ true
    pub runtime : Runtime
    pub found : lookup entry_id runtimes ≡ some runtime
    pub configured : backup_client_for (entry_backup_settings runtime) ≡ true
    pub known :
        All
          (λ s. IsKnown (entry_backup_settings runtime) (running_client runtime.transport) s.client)
          sent

  -- A restore that sent nothing, and says so.
  abbrev pub IsRefused : Traced (Unit {0}) → Type 0
  IsRefused t = (t.0 ≡ []) × (e : Error) × (t.1 ≡ raise e)

  Sends-user_error {ℓ} :
      {A : Type ℓ} (K : Client → Type 0) (P : A → Type 0) (t : Traced A)
      → Sends K P t
      → Sends K P (t.0, user_error t.1)
  Sends-user_error K P (sent, ok v) h = h
  Sends-user_error K P (sent, raise e) h = elim (Bool-cases (is_transport_error e)) [
    | inl transport ↦ rw transport h
    | inr other ↦ rw other h
  ]

  Sends-read_back :
      (K : Client → Type 0) (t : Traced Json) → Sends K Any t → Sends K Any (t.0, read_back t.1)
  Sends-read_back K (sent, ok v) (h, any) = elim (Result-cases (read_back (ok v))) [
    | inl (u, good) ↦ rw good (h, tt)
    | inr (e, bad) ↦ rw bad h
  ]
  Sends-read_back K (sent, raise e) h = elim (Result-cases (read_back (raise e))) [
    | inl (u, good) ↦ rw good (h, tt)
    | inr (e', bad) ↦ rw bad h
  ]

  restore_blob-cases :
      (settings : Dict Json) (recovery_secret : Text) (running : Option Client) (blob : Result Text)
      → let t = restore_blob w sha256 to_int settings recovery_secret running a blob in
        IsRefused t ⊎ All (λ s. IsKnown settings running s.client) t.0
  unfolding restore_blob get_info
  restore_blob-cases settings recovery_secret running (raise e) = inl (refl, e, refl)
  restore_blob-cases settings recovery_secret running (ok blob) = inr (
      Sends-sent (IsKnown settings running) Any _ (
        after-Sends (IsKnown settings running) (IsKnown settings running) Any _ _
          (Sends-user_error _ _ _ (restore_on_node-Sends settings recovery_secret blob running))
          (λ client known.
            Sends-read_back (IsKnown settings running) (get_info client a)
              (sends-Sends (IsKnown settings running) client info_call a.info known))))

  restore_runtime-cases :
      (runtimes : Dict Runtime) (entry_id recovery_secret handed : Text) (s : BackupStore)
      (o : Option Runtime)
      → truthy recovery_secret ≡ true
      → ((r : Runtime) → o ≡ some r → lookup entry_id runtimes ≡ some r)
      → let t = restore_runtime w sha256 to_int recovery_secret handed a s o in
        IsRefused t ⊎ IsAllowed runtimes entry_id recovery_secret t.0
  unfolding restore_runtime
  restore_runtime-cases runtimes entry_id recovery_secret handed s none secret there =
      inl (refl, service_error, refl)
  restore_runtime-cases runtimes entry_id recovery_secret handed s (some r) secret there =
      elim (Bool-cases (backup_client_for (entry_backup_settings r))) [
        | inr no_access ↦ rw (no_access, restore_runtime) (inl (refl, service_error, refl))
        | inl configured ↦
            rw (configured, restore_runtime)
              (elim (restore_blob-cases (entry_backup_settings r) recovery_secret
                (running_client r.transport)
                (chosen_blob handed (household_of w sha256 to_int (entry_backup_settings r)) s)) [
                  | inl refused ↦ inl refused
                  | inr known ↦ inr (record {
                    secret = secret;
                    runtime = r;
                    found = there r refl;
                    configured = configured;
                    known = known;
                  })
                ])
      ]

  -- Whatever the node answers: a restore that sends anything was given a recovery secret, for an entry
  -- that is set up and configured, and each of its requests, the secret's own too, goes through the
  -- client of the running entry or, where none runs, through one that trusts the certificate that the
  -- node showed and whose fingerprint matches the configured one. Any other restore sends nothing and
  -- raises.
  pub restore_entry_cases :
      (runtimes : Dict Runtime) (entry_id recovery_secret handed : Text) (s : BackupStore)
      → let t = restore_entry w sha256 to_int runtimes entry_id recovery_secret handed a s in
        IsRefused t ⊎ IsAllowed runtimes entry_id recovery_secret t.0
  unfolding restore_entry
  restore_entry_cases runtimes entry_id recovery_secret handed s =
      elim (Bool-cases (truthy recovery_secret)) [
        | inr empty ↦ rw (empty, restore_entry) (inl (refl, service_error, refl))
        | inl secret ↦
            rw (secret, restore_entry)
              (restore_runtime-cases runtimes entry_id recovery_secret handed s
                (set_up (lookup entry_id runtimes)) secret
                (λ r. set_up-some (lookup entry_id runtimes) r))
      ]
