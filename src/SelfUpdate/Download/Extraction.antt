-- ===== src/SelfUpdate/Download/Extraction.antt =====
-- What a worker that was downloaded is known to be (internal/selfupdate/download_unix.go).
use mathlib.Core.List.{Memᴰ}
use mathlib.Core.Path.{subst}
use clawmast.Prelude.{
  ℕ, zero, suc, ◌+◌, String, Bool, true, false, not, Option, none, some, List, [], ◌∷◌, ◌≡◌, ◌≢◌,
  refl, sym, ap, ◌∙◌, arith, length, take, ◌==◌, if◌then◌else◌, All,
}
use clawmast.Updater.Manifest.{Artifact}
use clawmast.SelfUpdate.Download.{
  open_failed, write_failed, close_failed, unexpected_status, drain_failed, TarItem, TarEntry,
  bad_header, entry, Worker, Download, ok, err, WriteFaults, Placing, skipped, refused, placed,
  place, file_mode, write_worker, take_entry, extract_tar, equal_fold, check_seen, after_extract,
  extract_body, download_and_extract, response,
}
use clawmast.SelfUpdate.Download.Names.{IsWorkerOf, IsSafe, placed_is, not_refused_is, mode_is}

-- An entry that extractTar may meet on the way to success.
abbrev IsHarmless : TarItem → Type 0
IsHarmless bad_header = ⊥
IsHarmless (entry e) = place e ≢ refused

-- The worker comes from an entry that extractTar places.
abbrev ComesFrom : Worker → List TarItem → Type 0
ComesFrom w items =
    (e : TarEntry) × Memᴰ (entry e) items
    × (place e ≡ placed)
    × (w ≡ record { mode = file_mode e.mode; content = e.content })

-- The loop after an entry was taken.
abbrev follow : WriteFaults → List TarItem → Download (Option Worker) → Download Worker
follow f rest (err x) = err x
follow f rest (ok found) = extract_tar f rest found

extract_step :
    (f : WriteFaults) (e : TarEntry) (rest : List TarItem) (found : Option Worker) (w : Worker)
    → extract_tar f (entry e ∷ rest) found ≡ ok w
    → follow f rest (take_entry f e found (place e)) ≡ ok w
unfolding extract_tar
extract_step f e rest found w h = go (take_entry f e found (place e)) h
  where
    go :
        (r : Download (Option Worker))
        → (elim r [ err x ↦ err x | ok found' ↦ extract_tar f rest found' ]) ≡ ok w
        → follow f rest r ≡ ok w
    go (err x) k = k
    go (ok found') k = k

-- What is still to be shown of the archive after an entry.
abbrev Rest : Option Worker → Worker → List TarItem → Type 0
Rest none w rest = ComesFrom w rest × All IsHarmless rest
Rest (some v) w rest = (v ≡ w) × All IsHarmless rest

found_after :
    (f : WriteFaults) (e : TarEntry) (rest : List TarItem) (v w : Worker) (p : Placing)
    → ((found : Option Worker) → extract_tar f rest found ≡ ok w → Rest found w rest)
    → place e ≡ p
    → follow f rest (take_entry f e (some v) p) ≡ ok w
    → Rest (some v) w (entry e ∷ rest)
unfolding take_entry write_worker
found_after f e rest v w skipped later is h =
    let (same, harmless) = later (some v) h in
    (same, (λ bad. absurd (ground (arith, is, bad)), harmless))
found_after f e rest v w refused later is h = absurd cc
found_after f e rest v w placed later is h = absurd cc

written :
    (f : WriteFaults) (rest : List TarItem) (o : Option Worker) (w : Worker) (a b c : Bool)
    → follow f rest (
        if a
        then err open_failed
        else if b
        then err write_failed
        else if c
        then err close_failed
        else ok o)
      ≡ ok w
    → extract_tar f rest o ≡ ok w
written f rest o w true b c h = absurd cc
written f rest o w false true c h = absurd cc
written f rest o w false false true h = absurd cc
written f rest o w false false false h = h

none_after :
    (f : WriteFaults) (e : TarEntry) (rest : List TarItem) (w : Worker) (p : Placing)
    → ((found : Option Worker) → extract_tar f rest found ≡ ok w → Rest found w rest)
    → place e ≡ p
    → follow f rest (take_entry f e none p) ≡ ok w
    → Rest none w (entry e ∷ rest)
unfolding take_entry write_worker
none_after f e rest w skipped later is h =
    let ((x, at, placed_x, same), harmless) = later none h in
    ((x, Memᴰ.tail at, placed_x, same), ((λ bad. absurd (ground (arith, is, bad))), harmless))
none_after f e rest w refused later is h = absurd cc
none_after f e rest w placed later is h =
    let x : Worker = record { mode = file_mode e.mode; content = e.content } in
    let (same, harmless) = later (some x) (written f rest (some x) w f.create f.write f.close h) in
    ((e, Memᴰ.head refl, is, sym same), ((λ bad. absurd (ground (arith, is, bad))), harmless))

extract-Rest :
    (f : WriteFaults) (items : List TarItem) (found : Option Worker) (w : Worker)
    → extract_tar f items found ≡ ok w
    → Rest found w items
unfolding extract_tar
extract-Rest f [] none w h = absurd cc
extract-Rest f [] (some v) w h = (ground (arith, h), tt)
extract-Rest f (bad_header ∷ rest) found w h = absurd cc
extract-Rest f (entry e ∷ rest) none w h =
    none_after f e rest w (place e) (λ o k. extract-Rest f rest o w k) refl
      (extract_step f e rest none w h)
extract-Rest f (entry e ∷ rest) (some v) w h =
    found_after f e rest v w (place e) (λ o k. extract-Rest f rest o w k) refl
      (extract_step f e rest (some v) w h)

worker_of : (w : Worker) (items : List TarItem) → ComesFrom w items → IsWorkerOf w items
worker_of w items (e, at, is, same) =
    let (regular, name) = placed_is e is in
    (e, at, regular, name, ap (λ x. x.content) same, ap (λ x. x.mode) same ∙ mode_is e.mode)

none_unsafe : (items : List TarItem) → All IsHarmless items → All IsSafe items
none_unsafe [] h = tt
none_unsafe (bad_header ∷ items) (bad, h) = absurd bad
none_unsafe (entry e ∷ items) (harmless, h) = (not_refused_is e harmless, none_unsafe items h)

-- The checks of the size and of the hash, passed.
seen_checked :
    (sha256_hex : List ℕ → String) (art : Artifact) (seen : List ℕ) (v w : Worker) (n : ℕ)
    → check_seen sha256_hex art seen v ≡ ok (w, n)
    → (v ≡ w)
      × (n ≡ art.size)
      × (length seen ≡ art.size)
      × (equal_fold (sha256_hex seen) art.sha256 ≡ true)
unfolding check_seen
seen_checked sha256_hex art seen v w n h = ground (arith, h)

take_short {ℓ} :
    {A : Type ℓ} (n : ℕ) (xs : List A) → length (take (suc n) xs) ≡ n → take (suc n) xs ≡ xs
take_short n [] h = refl
take_short zero (x ∷ xs) h = absurd (omega arith)
take_short (suc n) (x ∷ xs) h = ap (λ l. x ∷ l) (take_short n xs (omega arith))

module _ (sha256_hex : List ℕ → String) (f : WriteFaults) (drain_fails : Bool)
    (art : Artifact) where
  extracted :
      (seen : List ℕ) (r : Download Worker) (w : Worker) (n : ℕ)
      → after_extract sha256_hex drain_fails art seen r ≡ ok (w, n)
      → (v : Worker) × (r ≡ ok v) × (check_seen sha256_hex art seen v ≡ ok (w, n))
  unfolding after_extract
  extracted seen (err e) w n h = absurd cc
  extracted seen (ok v) w n h = (v, refl, drained drain_fails h)
    where
      drained :
          (d : Bool)
          → (if d then err drain_failed else check_seen sha256_hex art seen v) ≡ ok (w, n)
          → check_seen sha256_hex art seen v ≡ ok (w, n)
      drained true k = absurd cc
      drained false k = k

  unpacked :
      (seen : List ℕ) (o : Option (List TarItem)) (w : Worker) (n : ℕ)
      → extract_body sha256_hex f drain_fails art seen o ≡ ok (w, n)
      → (items : List TarItem) × (o ≡ some items)
        × (after_extract sha256_hex drain_fails art seen (extract_tar f items none) ≡ ok (w, n))
  unfolding extract_body
  unpacked seen none w n h = absurd cc
  unpacked seen (some items) w n h = (items, refl, h)

  answered :
      (status : ℕ) (r : Download (Worker × ℕ)) (w : Worker) (n : ℕ)
      → (if not (status == 200) then err (unexpected_status status) else r) ≡ ok (w, n)
      → r ≡ ok (w, n)
  answered status r w n h = go (status == 200) h
    where
      go :
          (b : Bool)
          → (if not b then err (unexpected_status status) else r) ≡ ok (w, n)
          → r ≡ ok (w, n)
      go true k = k
      go false k = absurd cc

-- A worker that is downloaded comes from a body whose bytes are exactly as many as the manifest says
-- and have the hash that it says, up to the case of its digits. It is a regular entry of the archive in
-- that body, whose cleaned name is clawmast, or clawmast in one directory, with the permission bits of
-- that entry, or 0o755 where it has none. Every header of the archive could be read, and no regular
-- entry has an absolute name or one that still holds a part ".." when it is cleaned.
pub download_sound :
    (unpack : List ℕ → Option (List TarItem)) (sha256_hex : List ℕ → String) (f : WriteFaults)
    (drain_fails : Bool) (art : Artifact) (status : ℕ) (body : List ℕ) (w : Worker) (n : ℕ)
    → download_and_extract unpack sha256_hex f drain_fails art (response status body) ≡ ok (w, n)
    → (n ≡ art.size)
      × (length body ≡ art.size)
      × (equal_fold (sha256_hex body) art.sha256 ≡ true)
      × ((items : List TarItem) × (unpack body ≡ some items)
          × IsWorkerOf w items
          × All IsSafe items)
unfolding download_and_extract
download_sound unpack sha256_hex f drain_fails art status body w n h =
    let seen = take (art.size + 1) body in
    let read =
      answered sha256_hex f drain_fails art status
        (extract_body sha256_hex f drain_fails art seen (unpack seen)) w n h in
    let (items, from, rest) = unpacked sha256_hex f drain_fails art seen (unpack seen) w n read in
    let (v, got, checked) =
      extracted sha256_hex f drain_fails art seen (extract_tar f items none) w n rest in
    let (same, size, long, hash) = seen_checked sha256_hex art seen v w n checked in
    let step : art.size + 1 ≡ suc art.size = omega arith in
    let whole : seen ≡ body =
      ap (λ k. take k body) step
      ∙ take_short art.size body (subst (λ k. length (take k body) ≡ art.size) step long) in
    let (comes, harmless) = extract-Rest f items none w (got ∙ ap ok same) in
    (
      size,
      ap length (sym whole) ∙ long,
      ap (λ l. equal_fold (sha256_hex l) art.sha256) (sym whole) ∙ hash,
      (items, ap unpack (sym whole) ∙ from, worker_of w items comes, none_unsafe items harmless),
    )
