-- ===== src/Updater/Client/Soundness.antt =====
-- What a manifest that Check returns is known to be (internal/updater/client.go).
use mathlib.Core.Path.{subst}
use clawmast.Prelude.{
  if◌then◌else◌, not, ℕ, ◌≤◌, String, Bool, true, false, Option, none, some, List, ◌≡◌, ◌↔◌, refl,
  sym, ap, arith, length, take, eq_iff, Bool-cases, inl, inr, ltb, ◌+◌,
}
use clawmast.Updater.Manifest.{Manifest, validate, validate_iff, IsSensible, ManifestError}
use clawmast.Updater.Client.{
  Client, bad_signature, Checked, ok, err, Response, response, no_response, max_manifest_bytes,
  received, read_body, limit_body, urls, fetch, check_sensible, check_parsed, check_signed,
  check_fetched, check_urls, check,
}

limit_bounded : (limit : ℕ) (body b : List ℕ) → limit_body limit body ≡ ok b → length b ≤ limit
unfolding limit_body
limit_bounded limit body b h = elim (Bool-cases (ltb limit (length (take (limit + 1) body)))) [
  | inl big ↦ ground (arith, big)
  | inr small ↦
      let same : take (limit + 1) body ≡ b = ground (arith, small) in
      rw (sym same) (ground (arith, small))
]

read_body_bounded :
    (o : Option (List ℕ)) (b : List ℕ) → read_body o ≡ ok b → length b ≤ max_manifest_bytes
unfolding read_body
read_body_bounded none b h = cc
read_body_bounded (some body) b h = limit_bounded max_manifest_bytes body b h

read_when_ok :
    (missing : Bool) (status : ℕ) (body : Option (List ℕ)) (b : List ℕ)
    → received missing (response status body) ≡ ok b
    → read_body body ≡ ok b
unfolding received
read_when_ok missing status body b h = ground arith

received_bounded :
    (missing : Bool) (r : Response) (b : List ℕ)
    → received missing r ≡ ok b
    → length b ≤ max_manifest_bytes
unfolding received
received_bounded missing no_response b h = cc
received_bounded missing (response status body) b h =
    read_body_bounded body b (read_when_ok missing status body b h)

fetched_is :
    (get : String → Response) (url : String) (missing : Bool) (b : List ℕ)
    → fetch get url missing ≡ ok b
    → received missing (get url) ≡ ok b
unfolding fetch
fetched_is get url missing b h = h

guard_iff :
    (v : Bool) (r : Checked Manifest) (m : Manifest)
    → ((if not v then err bad_signature else r) ≡ ok m) ↔ ((v ≡ true) × (r ≡ ok m))
guard_iff true r m = ground arith
guard_iff false r m = ground arith

module _ {Key : Type 0} (unmarshal : List ℕ → Option Manifest)
    (verify : Key → List ℕ → List ℕ → Bool) where
  sensible_iff :
      (c : Client Key) (x m : Manifest) (o : Option ManifestError)
      → (check_sensible unmarshal verify c x o ≡ ok m)
        ↔ ((o ≡ none) × (x ≡ m) × (x.channel ≡ c.channel))
  unfolding check_sensible
  sensible_iff c x m none = ground (arith, eq_iff x.channel c.channel)
  sensible_iff c x m (some e) = ground arith

  parsed_iff :
      (c : Client Key) (o : Option Manifest) (m : Manifest)
      → (check_parsed unmarshal verify c o ≡ ok m)
        ↔ ((o ≡ some m) × (validate m ≡ none) × (m.channel ≡ c.channel))
  unfolding check_parsed
  parsed_iff c none m = ground arith
  parsed_iff c (some x) m = (
    λ h.
        let (valid, same, channel) = (sensible_iff c x m (validate x)).0 h in
        (ap some same, rw (sym same) valid, rw (sym same) channel),
    λ h.
        let (found, valid, channel) = h in
        let same : x ≡ m = ground (arith, found) in
        (sensible_iff c x m (validate x)).1 (rw same valid, same, rw same channel),
  )

  signed_iff :
      (c : Client Key) (manifest : List ℕ) (r : Checked (List ℕ)) (m : Manifest)
      → (check_signed unmarshal verify c manifest r ≡ ok m) ↔ (
          (sig : List ℕ) × (r ≡ ok sig)
          × (verify c.pub_key manifest sig ≡ true)
          × (check_parsed unmarshal verify c (unmarshal manifest) ≡ ok m))
  unfolding check_signed
  signed_iff c manifest (err e) m =
      (λ h. absurd cc, λ h. let (sig, read, verified, parsed) = h in absurd cc)
  signed_iff c manifest (ok sig) m =
      let guard =
        guard_iff (verify c.pub_key manifest sig)
          (check_parsed unmarshal verify c (unmarshal manifest)) m in
      (
        λ h. let (verified, parsed) = guard.0 h in (sig, refl, verified, parsed),
        λ h.
            let (s, read, verified, parsed) = h in
            let same : s ≡ sig = ground (arith, read) in
            guard.1 (
              subst
                (λ x.
                  (verify c.pub_key manifest x ≡ true)
                  × (check_parsed unmarshal verify c (unmarshal manifest) ≡ ok m))
                same (verified, parsed)),
      )

  fetched_iff :
      (get : String → Response) (c : Client Key) (sig_url : String) (r : Checked (List ℕ))
      (m : Manifest)
      → (check_fetched unmarshal verify get c sig_url r ≡ ok m) ↔ (
          (manifest : List ℕ) × (r ≡ ok manifest)
          × (check_signed unmarshal verify c manifest (fetch get sig_url false) ≡ ok m))
  unfolding check_fetched
  fetched_iff get c sig_url (err e) m = (λ h. absurd cc, λ h. let (b, read, rest) = h in absurd cc)
  fetched_iff get c sig_url (ok manifest) m = (
    λ h. (manifest, refl, h),
    λ h.
        let (b, read, rest) = h in
        let same : b ≡ manifest = ground (arith, read) in
        subst (λ x. check_signed unmarshal verify c x (fetch get sig_url false) ≡ ok m) same rest,
  )

  urls_iff :
      (get : String → Response) (c : Client Key) (r : Checked (String × String)) (m : Manifest)
      → (check_urls unmarshal verify get c r ≡ ok m) ↔ (
          (manifest_url sig_url : String) × (r ≡ ok (manifest_url, sig_url))
          × (check_fetched unmarshal verify get c sig_url (fetch get manifest_url true) ≡ ok m))
  unfolding check_urls
  urls_iff get c (err e) m = (λ h. absurd cc, λ h. let (a, b, read, rest) = h in absurd cc)
  urls_iff get c (ok (mu, su)) m = (
    λ h. (mu, su, refl, h),
    λ h.
        let (a, b, read, rest) = h in
        let same : (mu ≡ a) × (su ≡ b) = ground (arith, read) in
        subst (λ x. check_fetched unmarshal verify get c x (fetch get mu true) ≡ ok m) (sym same.1)
          (subst (λ x. check_fetched unmarshal verify get c b (fetch get x true) ≡ ok m)
            (sym same.0) rest),
  )

  -- Check returns a manifest exactly if the two URLs of the channel could be fetched, the signature
  -- verifies under the client's key the very bytes that the manifest was decoded from, and the manifest
  -- is sensible and names the channel that was asked for. Those bytes are at most 256 KiB.
  pub check_iff :
      (scheme_of : String → Option String) (get : String → Response) (c : Client Key) (m : Manifest)
      → (check unmarshal verify scheme_of get c ≡ ok m) ↔ (
          (manifest_url sig_url : String) × (manifest sig : List ℕ) × (urls scheme_of c
            ≡ ok (manifest_url, sig_url))
          × (fetch get manifest_url true ≡ ok manifest)
          × (fetch get sig_url false ≡ ok sig)
          × (verify c.pub_key manifest sig ≡ true)
          × (unmarshal manifest ≡ some m)
          × IsSensible m
          × (m.channel ≡ c.channel)
          × (length manifest ≤ max_manifest_bytes))
  unfolding check
  check_iff scheme_of get c m = (
    λ h.
        let (mu, su, at, fetched) = (urls_iff get c (urls scheme_of c) m).0 h in
        let (manifest, got, signed) = (fetched_iff get c su (fetch get mu true) m).0 fetched in
        let (sig, got_sig, verified, parsed) =
          (signed_iff c manifest (fetch get su false) m).0 signed in
        let (decoded, valid, channel) = (parsed_iff c (unmarshal manifest) m).0 parsed in
        (
          mu,
          su,
          manifest,
          sig,
          at,
          got,
          got_sig,
          verified,
          decoded,
          (validate_iff m).0 valid,
          channel,
          received_bounded true (get mu) manifest (fetched_is get mu true manifest got),
        ),
    λ h.
        let (mu, su, manifest, sig, at, got, got_sig, verified, decoded, valid, channel, small) =
          h in
        let parsed =
          (parsed_iff c (unmarshal manifest) m).1 (decoded, (validate_iff m).1 valid, channel) in
        let signed =
          (signed_iff c manifest (fetch get su false) m).1 (sig, got_sig, verified, parsed) in
        let fetched = (fetched_iff get c su (fetch get mu true) m).1 (manifest, got, signed) in
        (urls_iff get c (urls scheme_of c) m).1 (mu, su, at, fetched),
  )
