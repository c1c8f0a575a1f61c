-- ===== src/Query/Matches/Criteria.antt =====
-- What a query asks of an entry, criterion by criterion, and that `_matches` decides it.
use quick_find.Prelude.{
  ℤ, pos, negsuc, is_set, below, above, ℕ, ◌≤◌, ◌≡◌, ◌≢◌, ◌↔◌, refl, sym, ◌∙◌, Bool, true, false,
  not, ◌&&◌, ◌||◌, Option, none, some, List, [], ◌∷◌, arith, any, all, All, bit_and, length,
  &&-eq-true,
}
use quick_find.Text.{Text, text_eq, contains}
use quick_find.Index.{FileEntry, is_dir}
use quick_find.Index.Stat.{extension}
use quick_find.Query.Options.{ParsedQuery}
use quick_find.Query.Matches.{
  Engine, is_empty, Matchers, kind_passes, ext_passes, size_passes, fields_pass, text_passes,
  is_broken_link, is_broken_shortcut, is_shortcut, custom_passes, includes_pass, matches,
  no_earlier, no_later,
}
use quick_find.Query.Matches.Meaning.{
  path_of, target_of, settled, matches-wants, before_wants, after_wants,
}

any-eq-false :
    {A : Type 0} (f : A → Bool) (xs : List A) → (any f xs ≡ false) ↔ All (λ x. f x ≡ false) xs
any-eq-false f [] = (λ h. tt, λ h. refl)
any-eq-false f (x ∷ xs) =
    let (to, from) = any-eq-false f xs in
    (λ h. (ground arith, to (ground arith)), λ h. ground (arith, from h.1))

all-eq-true :
    {A : Type 0} (f : A → Bool) (xs : List A) → (all f xs ≡ true) ↔ All (λ x. f x ≡ true) xs
all-eq-true f [] = (λ h. tt, λ h. refl)
all-eq-true f (x ∷ xs) =
    let (to, from) = all-eq-true f xs in
    (λ h. (ground arith, to (ground arith)), λ h. ground (arith, from h.1))

-- A limit that is set has a date on its right side.
abbrev pub NoEarlier : Option ℕ → Option ℕ → Type 0
NoEarlier none date = Unit
NoEarlier (some limit) none = ⊥
NoEarlier (some limit) (some d) = limit ≤ d

abbrev pub NoLater : Option ℕ → Option ℕ → Type 0
NoLater none date = Unit
NoLater (some limit) none = ⊥
NoLater (some limit) (some d) = d ≤ limit

no_earlier_iff : (limit date : Option ℕ) → (no_earlier limit date ≡ true) ↔ NoEarlier limit date
no_earlier_iff none date = (λ h. tt, λ h. refl)
no_earlier_iff (some l) none = (λ h. cc, λ h. absurd h)
no_earlier_iff (some l) (some d) = (λ h. ground arith, λ h. ground arith)

no_later_iff : (limit date : Option ℕ) → (no_later limit date ≡ true) ↔ NoLater limit date
no_later_iff none date = (λ h. tt, λ h. refl)
no_later_iff (some l) none = (λ h. cc, λ h. absurd h)
no_later_iff (some l) (some d) = (λ h. ground arith, λ h. ground arith)

-- A number is at least a limit, which may be negative.
abbrev pub AtLeast : ℤ → ℕ → Type 0
AtLeast (pos m) n = m ≤ n
AtLeast (negsuc m) n = Unit

-- A number is at most a limit, of which 0 stands for none.
abbrev pub AtMost : ℤ → ℕ → Type 0
AtMost (pos m) n = m ≢ 0 → n ≤ m
AtMost (negsuc m) n = ⊥

AtLeast-iff : (z : ℤ) (n : ℕ) → (not (is_set z && below n z) ≡ true) ↔ AtLeast z n
AtLeast-iff (pos m) n = (λ h. ground arith, λ h. ground arith)
AtLeast-iff (negsuc m) n = (λ h. tt, λ h. refl)

AtMost-iff : (z : ℤ) (n : ℕ) → (not (is_set z && above n z) ≡ true) ↔ AtMost z n
AtMost-iff (pos m) n = (λ h q. ground arith, λ h. ground (arith, h))
AtMost-iff (negsuc m) n = (λ h. cc, λ h. absurd h)

-- `s` is the entry with the size and dates that count.
pub record Fields (p : ParsedQuery) (s : FileEntry) : Type 0 where
  pub min_size : AtLeast p.size_min s.size
  pub max_size : AtMost p.size_max s.size
  pub attribute : p.attrib_include ≢ 0 → bit_and s.attributes p.attrib_include ≢ 0
  pub min_length : AtLeast p.name_len_min (length s.name)
  pub max_length : AtMost p.name_len_max (length s.name)
  pub mod_after : NoEarlier p.date_mod_after s.date_modified
  pub mod_before : NoLater p.date_mod_before s.date_modified
  pub create_after : NoEarlier p.date_create_after s.date_created
  pub create_before : NoLater p.date_create_before s.date_created

abbrev fields_ok : ParsedQuery → FileEntry → Bool
fields_ok p s = size_passes p s && fields_pass p s

fields_sound :
    (p : ParsedQuery) (s : FileEntry) → size_passes p s ≡ true → fields_pass p s ≡ true → Fields p s
unfolding size_passes fields_pass
fields_sound p s hs hf = record {
  min_size = (AtLeast-iff p.size_min s.size).0 (ground arith);
  max_size = (AtMost-iff p.size_max s.size).0 (ground arith);
  attribute = λ h. ground arith;
  min_length = (AtLeast-iff p.name_len_min (length s.name)).0 (ground arith);
  max_length = (AtMost-iff p.name_len_max (length s.name)).0 (ground arith);
  mod_after = (no_earlier_iff p.date_mod_after s.date_modified).0 (ground arith);
  mod_before = (no_later_iff p.date_mod_before s.date_modified).0 (ground arith);
  create_after = (no_earlier_iff p.date_create_after s.date_created).0 (ground arith);
  create_before = (no_later_iff p.date_create_before s.date_created).0 (ground arith);
}

fields_complete :
    (p : ParsedQuery) (s : FileEntry)
    → Fields p s
    → (size_passes p s ≡ true) × (fields_pass p s ≡ true)
unfolding size_passes fields_pass
fields_complete p s h =
    let a = (no_earlier_iff p.date_mod_after s.date_modified).1 h.mod_after in
    let b = (no_later_iff p.date_mod_before s.date_modified).1 h.mod_before in
    let c = (no_earlier_iff p.date_create_after s.date_created).1 h.create_after in
    let d = (no_later_iff p.date_create_before s.date_created).1 h.create_before in
    let smallest = (AtLeast-iff p.size_min s.size).1 h.min_size in
    let largest = (AtMost-iff p.size_max s.size).1 h.max_size in
    let shortest = (AtLeast-iff p.name_len_min (length s.name)).1 h.min_length in
    let longest = (AtMost-iff p.name_len_max (length s.name)).1 h.max_length in
    (
      ground (arith, smallest, largest),
      rw (a, b, c, d) (ground (arith, h.attribute, shortest, longest)),
    )

both : {a b : Bool} → a ≡ true → b ≡ true → (a && b) ≡ true
both ha hb = ground arith

implied : (a b : Bool) → (a ≡ true → b ≡ true) → (not a || b) ≡ true
implied a b h = ground arith

not_empty : {A : Type 0} (xs : List A) → not (is_empty xs) ≡ true → xs ≢ []
not_empty [] h = cc
not_empty (x ∷ xs) h = λ e. cc

module _ (en : Engine) (p : ParsedQuery) (m : Matchers) (excluded : List Text) where
  pub record Before (e : FileEntry) : Type 0 where
    pub not_excluded : All (λ x. contains x (en.unicode.lower (path_of en e)) ≡ false) excluded
    pub no_folder : p.options.files_only ≡ true → is_dir e ≡ false
    pub no_file : p.options.folders_only ≡ true → is_dir e ≡ true
    pub known_extension :
        p.ext_filter ≢ []
        → (is_dir e ≡ false) × (any (λ x. text_eq (extension en.unicode e) x) p.ext_filter ≡ true)

  pub record After (s : FileEntry) : Type 0 where
    pub includes :
        All
          (λ i. contains (en.unicode.lower i) (en.unicode.lower (target_of en p s)) ≡ true)
          p.path_includes
    pub in_parent :
        p.parent_filter ≢ []
        → contains (en.unicode.lower p.parent_filter) (en.unicode.lower (en.dirname (path_of en s)))
          ≡ true
    pub broken_link : p.broken_link_mode ≡ true → is_broken_link en s (path_of en s) ≡ true
    pub broken_shortcut :
        p.broken_shortcut_mode ≡ true
        → (is_shortcut en s ≡ true) × (is_broken_shortcut en (path_of en s) ≡ true)
    pub dirty : p.git_dirty_mode ≡ true → en.is_in_dirty_git_repo (path_of en s) ≡ true
    pub custom : custom_passes en p.custom_modifiers s ≡ true
    pub text : text_passes m (target_of en p s) ≡ true
    pub content :
        p.content_search ≢ []
        → is_dir s ≡ false
        → en.content_search (path_of en s) p.content_search p.options.match_case ≡ true

  -- All that a query asks of an entry. Size and dates are those of the file, once it was looked at.
  pub record Satisfies (e : FileEntry) : Type 0 where
    pub before : Before e
    pub fields : Fields p (settled en p e)
    pub after : After (settled en p e)

  Before-iff : (e : FileEntry) → (before_wants en p excluded e ≡ true) ↔ Before e
  unfolding kind_passes ext_passes
  Before-iff e =
      let (to, from) = any-eq-false (λ x. contains x (en.unicode.lower (path_of en e))) excluded in
      (
        λ h. record {
          not_excluded = to (none_excluded excluded (ground arith));
          no_folder = λ f. ground arith;
          no_file = λ f. ground arith;
          known_extension = λ f. (ground arith, ground arith);
        },
        λ h. ground (arith, from h.not_excluded, h.no_folder, h.no_file, h.known_extension),
      )
    where
      none_excluded :
          (xs : List Text)
          → (not (not (is_empty xs))
              || not (any (λ x. contains x (en.unicode.lower (path_of en e))) xs))
            ≡ true
          → any (λ x. contains x (en.unicode.lower (path_of en e))) xs ≡ false
      none_excluded [] h = refl
      none_excluded (x ∷ xs) h = ground arith

  after_iff : (s : FileEntry) → fields_pass p s ≡ true → (after_wants en p m s ≡ true) ↔ After s
  unfolding includes_pass
  after_iff s f =
      let (to, from) =
        all-eq-true (λ i. contains (en.unicode.lower i) (en.unicode.lower (target_of en p s)))
          p.path_includes in
      (
        λ h. record {
          includes = to (ground arith);
          in_parent = λ q. ground arith;
          broken_link = λ q. ground arith;
          broken_shortcut = λ q. (ground arith, ground arith);
          dirty = λ q. ground arith;
          custom = ground arith;
          text = ground arith;
          content = λ q q'. ground arith;
        },
        λ h. both f (
            both (from h.includes) (
              both
                (implied (not (is_empty p.parent_filter)) _
                  (λ q. h.in_parent (not_empty p.parent_filter q)))
                (both (implied p.broken_link_mode _ h.broken_link) (
                  both
                    (implied p.broken_shortcut_mode _
                      (λ q. both (h.broken_shortcut q).0 (h.broken_shortcut q).1))
                    (both (implied p.git_dirty_mode _ h.dirty) (
                      both h.custom (
                        both h.text (
                          implied (not (is_empty p.content_search) && not (is_dir s)) _ (λ q.
                            h.content (not_empty p.content_search (&&-eq-true _ _ q).0) (
                              ground (
                                arith,
                                (&&-eq-true (not (is_empty p.content_search)) (not (is_dir s)) q).1,
                              ))))))))))),
      )

  -- An entry passes the tests of a query exactly when it meets each criterion of the query: the
  -- order of the tests, the early returns, and what the tests cache in the entry do not matter.
  pub matches-Satisfies : (e : FileEntry) → ((matches en p m excluded e).0 ≡ true) ↔ Satisfies e
  matches-Satisfies e = (
    λ h.
        let all_pass = sym (matches-wants en p m excluded e) ∙ h in
        let (b, rest) = &&-eq-true _ _ all_pass in
        let (c, d) = &&-eq-true (size_passes p (settled en p e)) _ rest in
        let f = (&&-eq-true (fields_pass p (settled en p e)) _ d).0 in
        record {
          before = (Before-iff e).0 b;
          fields = fields_sound p (settled en p e) c f;
          after = (after_iff (settled en p e) f).0 d;
        },
    λ h.
        let (c, f) = fields_complete p (settled en p e) h.fields in
        matches-wants en p m excluded e
        ∙ both ((Before-iff e).1 h.before) (both c ((after_iff (settled en p e) f).1 h.after)),
  )
