-- ===== src/Query/Matches/Meaning.antt =====
-- The tests of `_matches` decide a predicate of the entry, whatever was cached in it before or is
-- cached by the tests that come first.
use quick_find.Prelude.{
  ◌≡◌, ◌⊎◌, inl, inr, refl, sym, ◌∙◌, Bool, true, false, not, ◌&&◌, ◌||◌, Option, none, some, List,
  [], ◌∷◌, arith, any, is_set, if◌then◌else◌, Bool-cases, ap, subst,
}
use quick_find.Text.{Text, contains}
use quick_find.Index.{FileEntry, is_dir}
use quick_find.Index.Flat.{get_path}
use quick_find.Index.Stat.{extension, ensure_stat}
use quick_find.Query.Options.{ParsedQuery}
use quick_find.Query.Matches.{
  Engine, is_empty, Check, ◌>>◌, check, Matchers, kind_passes, ext_passes, size_passes, fields_pass,
  text_passes, path_check, is_broken_link, is_broken_shortcut, is_shortcut, custom_passes,
  size_check, target_check, includes_pass, broken_link_check, before_size, after_size, matches,
}

module _ (en : Engine) where
  -- The path of an entry, and the entry once its path is cached.
  abbrev pub path_of : FileEntry → Text
  path_of e = (get_path en.resolve e).0

  abbrev cached : FileEntry → FileEntry
  cached e = (get_path en.resolve e).1

  cached-cached : (e : FileEntry) → get_path en.resolve (cached e) ≡ (path_of e, cached e)
  unfolding get_path
  cached-cached e = ground arith

  -- What the tests meet where they ask about `a`: the entry, with its path cached or not.
  View : FileEntry → FileEntry → Type 0
  View a e = (e ≡ a) ⊎ (e ≡ cached a)

  -- The check gives `b` for `a` whatever the tests before it have cached.
  Computes : Check → FileEntry → Bool → Type 0
  Computes c a b = (e : FileEntry) → View a e → ((c e).0 ≡ b) × View a (c e).1

  Computes->> :
      (c k : Check) (a : FileEntry) (b b' : Bool)
      → Computes c a b
      → Computes k a b'
      → Computes (c >> k) a (b && b')
  unfolding View Computes
  Computes->> c k a b b' hc hk e v =
      let (p, w) = hc e v in
      elim (Bool-cases (c e).0) [
        | inl passed ↦
            let (q, x) = hk (c e).1 w in
            (rw passed (q ∙ subst (λ t. b' ≡ (t && b')) (sym passed ∙ p) refl), rw passed x)
        | inr failed ↦
            (rw failed (subst (λ t. false ≡ (t && b')) (sym failed ∙ p) refl), rw failed w)
      ]

  -- Caching the path changes nothing else.
  cached-same :
      {A : Type 0} (f : FileEntry → A) (a : FileEntry)
      → ((p : Option Text) → f (record a { path = p }) ≡ f a)
      → f (cached a) ≡ f a
  unfolding get_path
  cached-same f a same =
      elim a.path
        as (λ o.
          f (
            (elim o as (λ _. Text × FileEntry) [
              | some p ↦ (p, a)
              | none ↦
                  (en.resolve a.drive a.frn, record a { path = some (en.resolve a.drive a.frn) })
            ]).1)
          ≡ f a) [ none ↦ same (some (en.resolve a.drive a.frn)) | some p ↦ refl ]

  view-same :
      {A : Type 0} (f : FileEntry → A) (a e : FileEntry)
      → ((p : Option Text) → f (record a { path = p }) ≡ f a)
      → View a e
      → f e ≡ f a
  unfolding View
  view-same f a e same (inl q) = ap f q
  view-same f a e same (inr q) = ap f q ∙ cached-same f a same

  Computes-check :
      (p : FileEntry → Bool) (a : FileEntry)
      → ((o : Option Text) → p (record a { path = o }) ≡ p a)
      → Computes (check p) a (p a)
  unfolding Computes
  Computes-check p a same e v = (view-same p a e same v, v)

  view-path : (a e : FileEntry) → View a e → (path_of e ≡ path_of a) × (cached e ≡ cached a)
  unfolding View
  view-path a e (inl q) = (ap (λ x. path_of x) q, ap (λ x. cached x) q)
  view-path a e (inr q) = (
    ap (λ x. path_of x) q ∙ ap (λ (r : Text × FileEntry). r.0) (cached-cached a),
    ap (λ x. cached x) q ∙ ap (λ (r : Text × FileEntry). r.1) (cached-cached a),
  )

  Computes-path_check :
      (asked : Bool) (test : Text → Bool) (a : FileEntry)
      → Computes (path_check en asked test) a (not asked || test (path_of a))
  unfolding Computes View path_check
  Computes-path_check true test a e v = let (p, c) = view-path a e v in (ap test p, inr c)
  Computes-path_check false test a e v = (refl, v)

  Computes-broken_link :
      (a : FileEntry) → Computes (broken_link_check en) a (is_broken_link en a (path_of a))
  unfolding Computes View broken_link_check is_broken_link
  Computes-broken_link a e v =
      let (p, c) = view-path a e v in
      (
        ap (λ path. is_broken_link en e path) p
            ∙ view-same (λ x. is_broken_link en x (path_of a)) a e (λ o. refl) v,
        inr c,
      )

  abbrev pub target_of : ParsedQuery → FileEntry → Text
  target_of p e =
      if p.options.match_path || not (is_empty p.path_includes) then path_of e else e.name

  Computes-target :
      (p : ParsedQuery) (test : Text → Bool) (a : FileEntry)
      → Computes (target_check en p test) a (test (target_of p a))
  unfolding target_check
  Computes-target p test a =
      elim (Bool-cases (p.options.match_path || not (is_empty p.path_includes))) [
        | inl by_path ↦ rw (by_path, target_check) (Computes-path_check true test a)
        | inr by_name ↦ rw (by_name, target_check) (Computes-check (λ e. test e.name) a (λ o. refl))
      ]

  -- The entry whose size and dates count.
  abbrev pub settled : ParsedQuery → FileEntry → FileEntry
  settled p e =
      if is_set p.size_min || is_set p.size_max then ensure_stat en.resolve en.stat e else e

  stat-cached :
      (a : FileEntry)
      → a.stat_loaded ≡ false
      → ensure_stat en.resolve en.stat (cached a) ≡ ensure_stat en.resolve en.stat a
  unfolding ensure_stat
  stat-cached a h = ground arith

  stat-loaded : (a : FileEntry) → a.stat_loaded ≡ true → ensure_stat en.resolve en.stat a ≡ a
  unfolding ensure_stat
  stat-loaded a h = rw h

  View-stat :
      (a e : FileEntry)
      → View a e
      → View (ensure_stat en.resolve en.stat a) (ensure_stat en.resolve en.stat e)
  unfolding View
  View-stat a e (inl q) = inl (ap (λ x. ensure_stat en.resolve en.stat x) q)
  View-stat a e (inr q) = elim (Bool-cases a.stat_loaded) [
    | inl loaded ↦ inr (
        ap (λ x. ensure_stat en.resolve en.stat x) q
        ∙ (stat-loaded (cached a) (cached-same (λ x. x.stat_loaded) a (λ o. refl) ∙ loaded)
            ∙ ap (λ x. cached x) (sym (stat-loaded a loaded))))
    | inr not_loaded ↦ inl (ap (λ x. ensure_stat en.resolve en.stat x) q ∙ stat-cached a not_loaded)
  ]

  -- The size test: what it gives, and what the later tests meet.
  size_check-View :
      (p : ParsedQuery) (a e : FileEntry)
      → View a e
      → ((size_check en p e).0 ≡ size_passes p (settled p a))
        × View (settled p a) (size_check en p e).1
  unfolding size_check size_passes
  size_check-View p a e v = elim (Bool-cases (is_set p.size_min || is_set p.size_max)) [
    | inl asked ↦
        rw (asked, size_check)
          (
            view-same (size_passes p) (ensure_stat en.resolve en.stat a)
                (ensure_stat en.resolve en.stat e) (λ o. refl) (View-stat a e v),
            View-stat a e v,
          )
    | inr not_asked ↦ rw (not_asked, size_check) (ground arith, v)
  ]

  abbrev pub excluded_by : FileEntry → Text → Bool
  excluded_by a x = contains x (en.unicode.lower (path_of a))

  abbrev pub before_wants : ParsedQuery → List Text → FileEntry → Bool
  before_wants p xs a =
      (not (not (is_empty xs)) || not (any (λ x. excluded_by a x) xs))
      && (kind_passes p a && ext_passes en.unicode p a)

  before-Computes :
      (p : ParsedQuery) (xs : List Text) (a : FileEntry)
      → Computes (before_size en p xs) a (before_wants p xs a)
  unfolding before_size kind_passes ext_passes
  before-Computes p xs a =
      Computes->> _ _ a _ _
        (Computes-path_check (not (is_empty xs))
          (λ path. not (any (λ x. contains x (en.unicode.lower path)) xs)) a)
        (Computes->> _ _ a _ _ (Computes-check (kind_passes p) a (λ o. refl))
          (Computes-check (ext_passes en.unicode p) a (λ o. refl)))

  abbrev pub parent_wants : ParsedQuery → FileEntry → Bool
  parent_wants p a =
      contains (en.unicode.lower p.parent_filter) (en.unicode.lower (en.dirname (path_of a)))

  abbrev pub shortcut_wants : ParsedQuery → FileEntry → Bool
  shortcut_wants p a =
      not p.broken_shortcut_mode || (is_shortcut en a && is_broken_shortcut en (path_of a))

  abbrev pub after_wants : ParsedQuery → Matchers → FileEntry → Bool
  after_wants p m a =
      fields_pass p a
      && (includes_pass en p (target_of p a)
          && ((not (not (is_empty p.parent_filter)) || parent_wants p a)
              && ((not p.broken_link_mode || is_broken_link en a (path_of a))
                  && (shortcut_wants p a
                      && ((not p.git_dirty_mode || en.is_in_dirty_git_repo (path_of a))
                          && (custom_passes en p.custom_modifiers a
                              && (text_passes m (target_of p a)
                                  && (not (not (is_empty p.content_search) && not (is_dir a))
                                      || en.content_search (path_of a) p.content_search
                                          p.options.match_case))))))))

  link-Computes :
      (asked : Bool) (a : FileEntry)
      → Computes
          (if asked then broken_link_check en else check (λ e. true))
          a
          (not asked || is_broken_link en a (path_of a))
  unfolding Computes
  link-Computes true a e v = Computes-broken_link a e v
  link-Computes false a e v = (refl, v)

  shortcut-Computes :
      (p : ParsedQuery) (a : FileEntry)
      → Computes
          (λ e.
            if p.broken_shortcut_mode
            then if is_shortcut en e
              then path_check en true (is_broken_shortcut en) e
              else (false, e)
            else (true, e))
          a
          (shortcut_wants p a)
  unfolding Computes extension is_dir
  shortcut-Computes p a e v = elim (Bool-cases p.broken_shortcut_mode) [
    | inr unasked ↦ rw unasked (refl, v)
    | inl asked ↦
        let same = view-same (λ x. is_shortcut en x) a e (λ o. refl) v in
        elim (Bool-cases (is_shortcut en a)) [
          | inr other ↦ rw (asked, same, other) (refl, v)
          | inl link ↦
              rw (asked, same, link) (Computes-path_check true (is_broken_shortcut en) a e v)
        ]
  ]

  content-Computes :
      (p : ParsedQuery) (a : FileEntry)
      → Computes
          (λ e.
            path_check en
              (not (is_empty p.content_search) && not (is_dir e))
              (λ path. en.content_search path p.content_search p.options.match_case)
              e)
          a
          (not (not (is_empty p.content_search) && not (is_dir a))
            || en.content_search (path_of a) p.content_search p.options.match_case)
  unfolding Computes is_dir
  content-Computes p a e v =
      let same =
        view-same (λ x. not (is_empty p.content_search) && not (is_dir x)) a e (λ o. refl) v in
      rw same (
        Computes-path_check (not (is_empty p.content_search) && not (is_dir a))
          (λ path. en.content_search path p.content_search p.options.match_case) a e v)

  custom-same :
      (ms : List (Text × List Text)) (a : FileEntry) (o : Option Text)
      → custom_passes en ms (record a { path = o }) ≡ custom_passes en ms a
  unfolding custom_passes
  custom-same [] a o = refl
  custom-same ((name, values) ∷ ms) a o = simp (custom-same ms a o)

  after-Computes :
      (p : ParsedQuery) (m : Matchers) (a : FileEntry)
      → Computes (after_size en p m) a (after_wants p m a)
  unfolding after_size fields_pass
  after-Computes p m a = Computes->> _ _ a _ _ (Computes-check (fields_pass p) a (λ o. refl)) (
      Computes->> _ _ a _ _ (Computes-target p (includes_pass en p) a) (
        Computes->> _ _ a _ _
          (Computes-path_check (not (is_empty p.parent_filter))
            (λ x. contains (en.unicode.lower p.parent_filter) (en.unicode.lower (en.dirname x))) a)
          (Computes->> _ _ a _ _ (link-Computes p.broken_link_mode a) (
            Computes->> _ _ a _ _ (shortcut-Computes p a) (
              Computes->> _ _ a _ _ (Computes-path_check p.git_dirty_mode en.is_in_dirty_git_repo a)
                (Computes->> _ _ a _ _
                  (Computes-check (custom_passes en p.custom_modifiers) a
                    (custom-same p.custom_modifiers a))
                  (Computes->> _ _ a _ _ (Computes-target p (text_passes m) a)
                    (content-Computes p a))))))))

  View-refl : (a : FileEntry) → View a a
  unfolding View
  View-refl a = inl refl

  -- All the tests of a query, as one formula over the entry that they begin with.
  pub matches-wants :
      (p : ParsedQuery) (m : Matchers) (xs : List Text) (a : FileEntry)
      → (matches en p m xs a).0
        ≡ (before_wants p xs a && (size_passes p (settled p a) && after_wants p m (settled p a)))
  unfolding matches Computes
  matches-wants p m xs a =
      let (b, v) = before-Computes p xs a a (View-refl a) in
      let e = (before_size en p xs a).1 in
      let (c, w) = size_check-View p a e v in
      let e' = (size_check en p e).1 in
      let (d, x) = after-Computes p m (settled p a) e' w in
      elim (Bool-cases (before_size en p xs a).0) [
        | inr out ↦ rw (out, ← b, out)
        | inl in_ ↦ elim (Bool-cases (size_check en p e).0) [
          | inr out ↦ rw (in_, out, ← b, in_, ← c, out)
          | inl in₂ ↦ rw (in_, in₂, ← b, in_, ← c, in₂, d)
        ]
      ]
