-- ===== src/Csv/RoundTrip.antt =====
-- parseCsv reads back what is written.
use Prim.Native.String
use Prim.Native.Char.{Char, code}
use Prim.Native.String.append
use text.Mathlib.TextLemmas.{append-nil as append_empty, append_assoc as append_text}
use mathlib.Core.List.{append_assoc, append-nil}
use open_vibe_host.Base.{
  String, Bool, true, false, not, ◌&&◌, ◌||◌, List, [], ◌∷◌, ◌++◌, map, ◌==◌, nat_eq, string_eq,
  if◌then◌else◌, null, ◌≡◌, refl, sym, ap, ◌∙◌, arith, all, keep,
}
use open_vibe_host.Csv.{
  Reading, feed, scan, closes, rows_of, to_object, is_filled, parse_csv, objects,
}
use open_vibe_host.Csv.Printed.{
  is_special, is_plain, doubled, written, written_rest, written_row, written_rows,
}

one-append : (c : Char) (t : String) → String.◌++◌ (String.◌∷◌ c "") t ≡ String.◌∷◌ c t
one-append c t = append.cons c "" t ∙ ap (λ u. String.◌∷◌ c u) (append.nil t)

push-append :
    (a : String) (c : Char) (f : String)
    → String.◌++◌ (String.◌++◌ a (String.◌∷◌ c "")) f ≡ String.◌++◌ a (String.◌∷◌ c f)
push-append a c f = append_text a (String.◌∷◌ c "") f ∙ ap (λ t. String.◌++◌ a t) (one-append c f)

-- Without a second quote to look for, the loop takes one character.
scan-feed :
    (c : Char) (r : Reading) (s : String)
    → closes c r ≡ false
    → scan r (String.◌∷◌ c s) ≡ scan (feed c r) s
unfolding scan
scan-feed c r String.[] h = refl
scan-feed c r (String.◌∷◌ d s) h = rw h

abbrev at : List (List String) → List String → String → Bool → Reading
at rows row field quoted = record { rows = rows; row = row; field = field; quoted = quoted }

module _ (rows : List (List String)) (row : List String) where
  feed-plain :
      (c : Char) (a : String)
      → is_special (code c) ≡ false
      → feed c (at rows row a false) ≡ at rows row (String.◌++◌ a (String.◌∷◌ c "")) false
  unfolding feed
  feed-plain c a h = ground arith

  feed-quoted :
      (c : Char) (a : String)
      → (code c == b'"') ≡ false
      → feed c (at rows row a true) ≡ at rows row (String.◌++◌ a (String.◌∷◌ c "")) true
  unfolding feed
  feed-quoted c a h = ground arith

  scan-plain :
      (f a s : String)
      → is_plain f ≡ true
      → scan (at rows row a false) (String.◌++◌ f s) ≡ scan (at rows row (String.◌++◌ a f) false) s
  unfolding is_plain
  scan-plain String.[] a s h = rw (append.nil s, append_empty a)
  scan-plain (String.◌∷◌ c f) a s h =
      ap (λ t. scan (at rows row a false) t) (append.cons c f s)
      ∙ scan-feed c (at rows row a false) (String.◌++◌ f s) refl
      ∙ ap (λ r. scan r (String.◌++◌ f s)) (feed-plain c a (ground arith))
      ∙ scan-plain f (String.◌++◌ a (String.◌∷◌ c "")) s (ground arith)
      ∙ ap (λ t. scan (at rows row t false) s) (push-append a c f)

  -- Inside quotes a written character is read as itself, a quote from two.
  scan-escaped :
      (b : Bool) (c : Char) (a t s : String)
      → (code c == b'"') ≡ b
      → scan
          (at rows row a true)
          (String.◌++◌ (if b then String.◌∷◌ c (String.◌∷◌ c t) else String.◌∷◌ c t) s)
        ≡ scan (at rows row (String.◌++◌ a (String.◌∷◌ c "")) true) (String.◌++◌ t s)
  unfolding scan
  scan-escaped true c a t s h =
      ap (λ u. scan (at rows row a true) u)
        (append.cons c (String.◌∷◌ c t) s ∙ ap (λ u. String.◌∷◌ c u) (append.cons c t s))
      ∙ rw h
  scan-escaped false c a t s h =
      ap (λ u. scan (at rows row a true) u) (append.cons c t s)
      ∙ scan-feed c (at rows row a true) (String.◌++◌ t s) h
      ∙ ap (λ r. scan r (String.◌++◌ t s)) (feed-quoted c a h)

  scan-closing :
      (a : String) (d : Char) (s : String)
      → (code d == b'"') ≡ false
      → scan (at rows row a true) (String.◌++◌ "\"" (String.◌∷◌ d s))
        ≡ scan (at rows row a false) (String.◌∷◌ d s)
  unfolding scan feed
  scan-closing a d s h =
      ap (λ u. scan (at rows row a true) u) (one-append "\"" (String.◌∷◌ d s)) ∙ rw h

  scan-doubled :
      (f a : String) (d : Char) (s : String)
      → (code d == b'"') ≡ false
      → scan (at rows row a true) (String.◌++◌ (doubled f) (String.◌++◌ "\"" (String.◌∷◌ d s)))
        ≡ scan (at rows row (String.◌++◌ a f) false) (String.◌∷◌ d s)
  unfolding doubled
  scan-doubled String.[] a d s h =
      ap (λ u. scan (at rows row a true) u) (append.nil (String.◌++◌ "\"" (String.◌∷◌ d s)))
      ∙ scan-closing a d s h
      ∙ ap (λ t. scan (at rows row t false) (String.◌∷◌ d s)) (sym (append_empty a))
  scan-doubled (String.◌∷◌ c f) a d s h =
      scan-escaped (code c == b'"') c a (doubled f) (String.◌++◌ "\"" (String.◌∷◌ d s)) refl
      ∙ scan-doubled f (String.◌++◌ a (String.◌∷◌ c "")) d s h
      ∙ ap (λ t. scan (at rows row t false) (String.◌∷◌ d s)) (push-append a c f)

  scan-opening :
      (t : String) → scan (at rows row "" false) (String.◌++◌ "\"" t) ≡ scan (at rows row "" true) t
  unfolding feed
  scan-opening t =
      ap (λ u. scan (at rows row "" false) u) (one-append "\"" t)
      ∙ scan-feed "\"" (at rows row "" false) t refl

  -- A field is read as itself, in quotes or without them where it is plain.
  scan-chosen :
      (b : Bool) (f : String) (d : Char) (s : String)
      → (b ≡ false → is_plain f ≡ true)
      → (code d == b'"') ≡ false
      → scan (at rows row "" false) (
          String.◌++◌
            (if b then String.◌++◌ "\"" (String.◌++◌ (doubled f) "\"") else f)
            (String.◌∷◌ d s))
        ≡ scan (at rows row f false) (String.◌∷◌ d s)
  scan-chosen true f d s p h =
      ap (λ u. scan (at rows row "" false) u)
        (append_text "\"" (String.◌++◌ (doubled f) "\"") (String.◌∷◌ d s))
      ∙ scan-opening (String.◌++◌ (String.◌++◌ (doubled f) "\"") (String.◌∷◌ d s))
      ∙ ap (λ u. scan (at rows row "" true) u) (append_text (doubled f) "\"" (String.◌∷◌ d s))
      ∙ scan-doubled f "" d s h
      ∙ ap (λ t. scan (at rows row t false) (String.◌∷◌ d s)) (append.nil f)
  scan-chosen false f d s p h =
      scan-plain f "" (String.◌∷◌ d s) (p refl)
      ∙ ap (λ t. scan (at rows row t false) (String.◌∷◌ d s)) (append.nil f)

-- Every row of the table has a field, and is not one empty field.
abbrev pub IsTable : List (List String) → Type 0
IsTable rs = all (λ r. not (null r) && is_filled r) rs ≡ true

IsTable-fields : (rs : List (List String)) → IsTable rs → all (λ r. not (null r)) rs ≡ true
IsTable-fields [] h = refl
IsTable-fields (r ∷ rs) h = ground (arith, IsTable-fields rs (ground arith))

IsTable-keep : (rs : List (List String)) → IsTable rs → keep (λ r. is_filled r) rs ≡ rs
IsTable-keep [] h = refl
IsTable-keep (r ∷ rs) h = ground (arith, IsTable-keep rs (ground arith))

module _ (always : String → Bool) where
  scan-written :
      (rows : List (List String)) (row : List String) (f : String) (d : Char) (s : String)
      → (code d == b'"') ≡ false
      → scan (at rows row "" false) (String.◌++◌ (written always f) (String.◌∷◌ d s))
        ≡ scan (at rows row f false) (String.◌∷◌ d s)
  unfolding written
  scan-written rows row f d s h =
      scan-chosen rows row (always f || not (is_plain f)) f d s (λ e. ground arith) h

  -- What follows a field begins with no quote.
  abbrev Begins : String → Type 0
  Begins t = (d : Char) × (s : String) × (t ≡ String.◌∷◌ d s) × ((code d == b'"') ≡ false)

  written_rest-Begins :
      (fs : List String) (s : String) → Begins (String.◌++◌ (written_rest always fs) s)
  unfolding written_rest
  written_rest-Begins [] s = ("\n", s, one-append "\n" s, refl)
  written_rest-Begins (f ∷ fs) s =
      let more = String.◌++◌ (written always f) (written_rest always fs) in
      (",", String.◌++◌ more s, append_text "," more s ∙ one-append "," (String.◌++◌ more s), refl)

  scan-before :
      (rows : List (List String)) (row : List String) (f t : String)
      → Begins t
      → scan (at rows row "" false) (String.◌++◌ (written always f) t)
        ≡ scan (at rows row f false) t
  scan-before rows row f t (d, s, e, h) =
      ap (λ u. scan (at rows row "" false) (String.◌++◌ (written always f) u)) e
      ∙ scan-written rows row f d s h
      ∙ ap (λ u. scan (at rows row f false) u) (sym e)

  scan-rest :
      (rows : List (List String)) (row : List String) (f : String) (fs : List String) (s : String)
      → scan (at rows row f false) (String.◌++◌ (written_rest always fs) s)
        ≡ scan (at (rows ++ ((row ++ f ∷ fs) ∷ [])) [] "" false) s
  unfolding written_rest feed
  scan-rest rows row f [] s =
      ap (λ u. scan (at rows row f false) u) (one-append "\n" s)
      ∙ scan-feed "\n" (at rows row f false) s refl
  scan-rest rows row f (g ∷ gs) s =
      let end = written_rest always gs in
      let more = String.◌++◌ (written always g) end in
      ap (λ u. scan (at rows row f false) u)
        (append_text "," more s ∙ one-append "," (String.◌++◌ more s))
      ∙ scan-feed "," (at rows row f false) (String.◌++◌ more s) refl
      ∙ ap (λ u. scan (at rows (row ++ (f ∷ [])) "" false) u) (append_text (written always g) end s)
      ∙ scan-before rows (row ++ (f ∷ [])) g (String.◌++◌ end s) (written_rest-Begins gs s)
      ∙ scan-rest rows (row ++ (f ∷ [])) g gs s
      ∙ ap (λ r. scan (at (rows ++ (r ∷ [])) [] "" false) s) (append_assoc row (f ∷ []) (g ∷ gs))

  scan-row :
      (rows : List (List String)) (f : String) (fs : List String) (s : String)
      → scan (at rows [] "" false) (String.◌++◌ (written_row always (f ∷ fs)) s)
        ≡ scan (at (rows ++ ((f ∷ fs) ∷ [])) [] "" false) s
  unfolding written_row
  scan-row rows f fs s =
      ap (λ u. scan (at rows [] "" false) u)
        (append_text (written always f) (written_rest always fs) s)
      ∙ scan-before rows [] f (String.◌++◌ (written_rest always fs) s) (written_rest-Begins fs s)
      ∙ scan-rest rows [] f fs s

  scan-rows :
      (rows rs : List (List String))
      → all (λ r. not (null r)) rs ≡ true
      → scan (at rows [] "" false) (written_rows always rs) ≡ at (rows ++ rs) [] "" false
  unfolding written_rows scan
  scan-rows rows [] h = rw (append-nil rows)
  scan-rows rows ([] ∷ rs) h = ground arith
  scan-rows rows ((f ∷ fs) ∷ rs) h =
      scan-row rows f fs (written_rows always rs)
      ∙ scan-rows (rows ++ ((f ∷ fs) ∷ [])) rs h
      ∙ ap (λ r. at r [] "" false) (append_assoc rows ((f ∷ fs) ∷ []) rs)

  -- Whichever fields are quoted besides those that must be: parseCsv reads back what is written, as
  -- one object per row, where every row has a field and is not one empty field.
  pub parse_csv-written_rows :
      (header : List String) (rs : List (List String))
      → null header ≡ false
      → IsTable rs
      → parse_csv (written_rows always (header ∷ rs)) ≡ map (to_object header) rs
  unfolding parse_csv rows_of
  parse_csv-written_rows header rs h t =
      ap (λ r. objects (rows_of r))
        (scan-rows [] (header ∷ rs) (ground (arith, IsTable-fields rs t)))
      ∙ ap (λ v. map (to_object header) v) (IsTable-keep rs t)
