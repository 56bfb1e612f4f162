-- ===== src/Bundle/RoundTrip/Steps.antt =====
-- The reader follows the writer, object by object.
use webgit.Base.{
  ℕ, ◌+◌, ◌-◌, ◌≤◌, ◌<◌, ◌≡◌, refl, sym, ap, ◌∙◌, subst, arith, Bytes, List, [], ◌∷◌, ◌++◌,
  append_assoc, In, All, false, ◌==◌, ==_self, Option, some, ok, length, length-append, get_range,
}
use webgit.Hash.{ObjectId}
use webgit.Object.{RawObject}
use webgit.Bundle.Window.{Window}
use webgit.Bundle.Window.Budget.{best_delta-IsSmall}
use webgit.Bundle.Window.Offers.{IsPacked, best_delta-Rebuilds, remember-All}
use webgit.Bundle.Writer.{Crates, BundleWriter, max_bundle_bytes, append}
use webgit.Bundle.Reader.{ObjectStore, PackReader, trailer_len, find_at, read_object}
use webgit.Bundle.Reader.Windows.{Held}
use webgit.Bundle.Reader.Laws.{IsSound, IsStore, NoCollision, get_range-middle}
use webgit.Bundle.RoundTrip.Kept.{IsHeld, IsViewed, IsKept, keep_object-IsKept}
use webgit.Bundle.RoundTrip.Entries.{read_object_lem}
use webgit.Bundle.RoundTrip.Written.{parts, entry, tried, new_candidate, append_lem}
use webgit.Bundle.RoundTrip.Stored.{At, stored-IsReadable}

All-weaken :
    {A : Type 0} (P Q : A → Type 0) (xs : List A) → ((x : A) → P x → Q x) → All P xs → All Q xs
All-weaken P Q [] f h = tt
All-weaken P Q (x ∷ xs) f (p, h) = (f x p, All-weaken P Q xs f h)

elsewhere : (a b : ℕ) → a < b → (b == a) ≡ false
elsewhere a b h = ground arith

module _ {S : Type 0} (store : ObjectStore S) (crates : Crates)
    (view : S → ObjectId → Option RawObject) (objects : List RawObject) where
  -- Every base that the writer may choose is one that the reader finds.
  pub record Follows (w : BundleWriter) (r : PackReader S) : Type 0 where
    pub held : Held (IsHeld store crates view objects) r.window
    pub packed :
        All (IsPacked crates.engine (At store crates view objects w.written r)) w.window.window

  abbrev pub Lasting : S → S → Type 0
  Lasting s t =
      (x : RawObject)
      → In x objects
      → IsViewed store crates view objects s x
      → IsViewed store crates view objects t x

  module _ (r r' : PackReader S) (pos pos' : ℕ) (object : RawObject)
      (kept : IsKept store crates view objects r pos object r') (more : pos < pos') where
    older-At :
        (offset : ℕ) (x : RawObject)
        → At store crates view objects pos r offset x
        → At store crates view objects pos' r' offset x
    unfolding find_at
    older-At offset x (before, at, among, viewed) = (
      omega arith,
      rw (kept.seen, elsewhere offset pos before) at,
      among,
      kept.views x among viewed,
    )

    newest-At : In object objects → At store crates view objects pos' r' pos object
    unfolding find_at
    newest-At among = (more, rw (kept.seen, ==_self pos) refl, among, kept.viewed)

  module _ (sound : IsSound crates) (lawful : IsStore store view)
      (apart : NoCollision crates.sha1 objects) where
    pub read_object-append :
        (object : RawObject) (w w' : BundleWriter) (r : PackReader S) (pre rest trailer : Bytes)
        → append crates object.object_type object.body w ≡ ok w'
        → In object objects
        → length object.body ≤ max_bundle_bytes
        → Follows w r
        → length pre ≡ w.written
        → length trailer ≡ trailer_len
        → (r' : PackReader S) × (read_object store crates
              (pre ++ ((entry crates object w ++ rest) ++ trailer))
              r
              w.written
            ≡ ok (r', w'.written))
          × Follows w' r'
          × IsViewed store crates view objects r'.store object
          × Lasting r.store r'.store
    read_object-append object w w' r pre rest trailer e among small f at_pos closes =
        let (finished, count, window) = append_lem crates object w w' e in
        let (packed, from) =
          best_delta-Rebuilds crates.engine (At store crates view objects w.written r)
            object.object_type object.body w.window.window f.packed in
        let budget =
          best_delta-IsSmall crates.engine sound.keeps object.object_type object.body
            w.window.window in
        let (r', put, kept) =
          keep_object-IsKept store crates view objects lawful apart r w.written object among
            f.held in
        let header = (parts crates object w).0 in
        let payload = (parts crates object w).1 in
        let deflated = crates.compress payload in
        let long : length (entry crates object w) ≡ length header + length deflated =
          length-append header deflated in
        let near : w.written ≤ max_bundle_bytes =
          omega (arith, finished.within, finished.written) in
        let readable =
          stored-IsReadable store crates view objects sound lawful apart r w.written object
            (tried crates object w).1 (deflated ++ rest) near small f.held budget from in
        let more : w.written < w'.written =
          omega (arith, finished.written, long, readable.nonempty) in
        let P = IsPacked crates.engine (At store crates view objects w'.written r') in
        let moved : All P (tried crates object w).0 =
          All-weaken (IsPacked crates.engine (At store crates view objects w.written r)) P
            (tried crates object w).0
            (λ c p. older-At r r' w.written w'.written object kept more c.offset _ p) packed in
        let next : w'.written ≡ w.written + length header + length deflated =
          omega (arith, finished.written, long) in
        let whole : Bytes = pre ++ ((entry crates object w ++ rest) ++ trailer) in
        let range : get_range whole w.written (length whole - trailer_len)
            ≡ some (header ++ (deflated ++ rest)) =
          subst
            (λ (p : ℕ).
              get_range whole p (length whole - trailer_len) ≡ some (entry crates object w ++ rest))
            at_pos (get_range-middle pre (entry crates object w ++ rest) trailer trailer_len closes)
          ∙ ap some (append_assoc header deflated rest) in
        let read =
          read_object_lem store crates sound whole r r' w.written header payload rest readable.type
            object range readable.parsed readable.fits readable.made put in
        let all : All P w'.window.window =
          subst (λ (v : Window). All P v.window) (sym window)
            (remember-All P (new_candidate crates object w.written (parts crates object w).2) _
              moved (newest-At r r' w.written w'.written object kept more among)) in
        (
          r',
          read ∙ ap (λ (n : ℕ). ok (r', n)) (sym next),
          record { held = kept.held; packed = all },
          kept.viewed,
          kept.views,
        )
