-- ===== src/Agent/Updates/Checking.antt =====
-- What the check for an update reports, on request and in the background (internal/agent/handlers.go,
-- server.go).
use clawmast.Prelude.{
  ℕ, Time, String, Bool, true, false, Option, some, List, [], ◌∷◌, ◌++◌, ◌≡◌, ◌≢◌, ◌↔◌, refl, arith,
  eq_iff,
}
use clawmast.Updater.Manifest.{Manifest}
use clawmast.Updater.Client.{Checked, Response, CheckError, check}
use clawmast.Updater.Client
use clawmast.Updater.Client.Soundness.{check_iff}
use clawmast.Agent.Server.{Config}
use clawmast.Agent.Updates.{
  signed_manifest, error, classify_updater_error, checked_reply, run_update_check, Background,
  record_background_check, run_background_checks,
}

available_iff :
    (cfg : Config) (current : String) (c : Checked Manifest)
    → ((run_update_check cfg current c).update_available ≡ true)
      ↔ ((cfg.update_base_url ≢ "") × ((m : Manifest) × (c ≡ Client.ok m) × (m.version ≢ current)))
unfolding run_update_check checked_reply
available_iff cfg current (Client.err e) = (
  λ h. absurd (ground (arith, h)),
  λ h. let (there, (m, bad, other)) = h in absurd (ground (arith, bad)),
)
available_iff cfg current (Client.ok m) = (
  λ h. (
    ground (arith, h, eq_iff cfg.update_base_url ""),
    (m, refl, ground (arith, h, eq_iff m.version current)),
  ),
  λ h.
      let (there, (n, same, other)) = h in
      ground (arith, there, same, other, eq_iff n.version current, eq_iff cfg.update_base_url ""),
)

module _ {Key : Type 0} (unmarshal : List ℕ → Option Manifest)
    (verify : Key → List ℕ → List ℕ → Bool) (scheme_of : String → Option String)
    (get : String → Response) (key : Key) where
  -- A check that announces an update had a manifest that was decoded from bytes whose signature verifies
  -- under the server's key, and that names the server's channel and another version than the running
  -- one. The version that is announced is the manifest's.
  pub announced :
      (cfg : Config) (current : String)
      → let client = Client.new cfg.update_base_url cfg.update_channel key in
        let r = run_update_check cfg current (check unmarshal verify scheme_of get client) in
        r.update_available ≡ true
        → (m : Manifest) × (manifest sig : List ℕ) × (verify key manifest sig ≡ true)
          × (unmarshal manifest ≡ some m)
          × (m.channel ≡ client.channel)
          × (m.version ≢ current)
          × (r.latest ≡ m.version)
          × (r.source ≡ signed_manifest)
  unfolding Client.new run_update_check checked_reply
  announced cfg current h =
      let client = Client.new cfg.update_base_url cfg.update_channel key in
      let c = check unmarshal verify scheme_of get client in
      let (there, (m, found, other)) = (available_iff cfg current c).0 h in
      let (mu, su, manifest, sig, at, got, got_sig, verified, decoded, valid, channel, small) =
        (check_iff unmarshal verify scheme_of get client m).0 found in
      (
        m,
        manifest,
        sig,
        verified,
        decoded,
        channel,
        other,
        ground (arith, found, there, eq_iff cfg.update_base_url ""),
        ground (arith, found, there, eq_iff cfg.update_base_url ""),
      )

-- Only the last round of the background check is remembered. After a round that failed, with an updater
-- configured, the cache announces no update, whatever an earlier round found.
pub failure_forgets :
    (cfg : Config) (current : String) (rounds : List (Checked Manifest × Time)) (e : CheckError)
    (now : Time) (b : Background)
    → cfg.update_base_url ≢ ""
    → run_background_checks cfg current (rounds ++ (Client.err e, now) ∷ []) b ≡ record {
      at_time = now;
      last = some (record {
        current = current;
        latest = current;
        update_available = false;
        channel = cfg.update_channel;
        source = error;
        error_code = classify_updater_error e;
      });
    }
unfolding run_background_checks record_background_check run_update_check checked_reply
failure_forgets cfg current [] e now b h = ground (arith, h, eq_iff cfg.update_base_url "")
failure_forgets cfg current ((c, t) ∷ rest) e now b h =
    failure_forgets cfg current rest e now
      (record_background_check (run_update_check cfg current c) t b) h
