-- ===== src/Server/Acl/Confines.antt =====
-- What the access control of server/acl.py lets through.
use quick_find.Prelude.{
  ℕ, ◌+◌, ◌≡◌, refl, ap, ◌∙◌, Bool, true, false, not, ◌||◌, List, [], ◌∷◌, ◌++◌, map, Option, none,
  some, if◌then◌else◌, any, keep, length, All, Bool-cases, inl, inr, arith,
}
use quick_find.Text.{Text, text_eq, text_eq_iff, text_eq_refl}
use quick_find.Server.Acl.{
  TokenAcl, SharedServerConfig, Payload, find_acl, acl_for_token, is_ascii, compare_digest, path_of,
  path_within_roots, normalized_roots, filter_loop, filter_with, filter_results_by_acl, ConfigError,
  duplicate_token, no_allowed_roots, when, no_roots, root_errors, acl_errors, validate_loop,
  validate_acls, validate_config,
}

append-eq-nil {ℓ} : {A : Type ℓ} (xs ys : List A) → xs ++ ys ≡ [] → (xs ≡ []) × (ys ≡ [])
append-eq-nil [] ys h = (refl, h)
append-eq-nil (x ∷ xs) ys h = ground arith

All-map {ℓ} :
    {A : Type ℓ} {P Q : A → Type 0} (f : (x : A) → P x → Q x) (xs : List A) → All P xs → All Q xs
All-map f [] h = h
All-map f (x ∷ xs) (p, ps) = (f x p, All-map f xs ps)

any-map :
    {A B : Type 0} (p : B → Bool) (f : A → B) (xs : List A)
    → any p (map f xs) ≡ any (λ x. p (f x)) xs
any-map p f [] = refl
any-map p f (x ∷ xs) = ap (λ b. p (f x) || b) (any-map p f xs)

append-when-nil :
    (front : List ConfigError) (b : Bool) (e : ConfigError)
    → front ++ when b e ≡ []
    → (front ≡ []) × (b ≡ false)
append-when-nil front true e h = let (_, q) = append-eq-nil front (e ∷ []) h in ground (arith, q)
append-when-nil front false e h = let (p, _) = append-eq-nil front [] h in (p, refl)

abbrev pub HasAscii : TokenAcl → Type 0
HasAscii acl = is_ascii acl.token ≡ true

pub compare_digest-ascii :
    (a b : Text) → is_ascii a ≡ true → is_ascii b ≡ true → compare_digest a b ≡ some (text_eq a b)
unfolding compare_digest
compare_digest-ascii a b h k = rw (h, k) refl

pub find_acl-cons :
    (a : TokenAcl) (acls : List TokenAcl) (token : Text)
    → is_ascii a.token ≡ true
    → is_ascii token ≡ true
    → find_acl (a ∷ acls) token
      ≡ (if text_eq a.token token then some (some a) else find_acl acls token)
unfolding find_acl
find_acl-cons a acls token h k = rw (find_acl, compare_digest-ascii a.token token h k) refl

module _ (isabs : Text → Bool) where
  -- An entry without errors: its token is new, and it has a root.
  acl_errors-nil :
      (i : ℕ) (seen : List Text) (acl : TokenAcl)
      → acl_errors isabs i seen acl ≡ []
      → (any (λ t. text_eq acl.token t) seen ≡ false) × (no_roots acl.allowed_roots ≡ false)
  unfolding acl_errors
  acl_errors-nil i seen acl h =
      let (h₁, _) = append-eq-nil _ (root_errors isabs i acl.allowed_roots) h in
      let (h₂, rooted) =
        append-when-nil _ (no_roots acl.allowed_roots) (no_allowed_roots i acl) h₁ in
      let (h₃, fresh) =
        append-when-nil _ (any (λ t. text_eq acl.token t) seen) (duplicate_token i) h₂ in
      (fresh, rooted)

  -- No token of the entries is among the seen ones, and every entry has a root.
  abbrev Good : List Text → TokenAcl → Type 0
  Good seen b = (any (λ t. text_eq b.token t) seen ≡ false) × (no_roots b.allowed_roots ≡ false)

  validate_loop-Good :
      (i : ℕ) (seen : List Text) (acls : List TokenAcl)
      → validate_loop isabs i seen acls ≡ []
      → All (Good seen) acls
  unfolding validate_loop
  validate_loop-Good i seen [] h = tt
  validate_loop-Good i seen (a ∷ acls) h =
      let (here, there) = append-eq-nil (acl_errors isabs i seen a) _ h in
      (
        acl_errors-nil i seen a here,
        All-map (λ b (f, r). (ground (arith, f), r)) acls
            (validate_loop-Good (i + 1) (a.token ∷ seen) acls there),
      )

  find_acl_self :
      (i : ℕ) (seen : List Text) (acls : List TokenAcl)
      → validate_loop isabs i seen acls ≡ []
      → All HasAscii acls
      → All (λ b. find_acl acls b.token ≡ some (some b)) acls
  unfolding validate_loop find_acl
  find_acl_self i seen [] h ascii = tt
  find_acl_self i seen (a ∷ acls) h (ascii, asciis) =
      let (here, there) = append-eq-nil (acl_errors isabs i seen a) _ h in
      let good = validate_loop-Good (i + 1) (a.token ∷ seen) acls there in
      let found = find_acl_self (i + 1) (a.token ∷ seen) acls there asciis in
      (
        find_acl-cons a acls a.token ascii ascii
            ∙ ap (λ b. if b then some (some a) else find_acl acls a.token) (text_eq_refl a.token),
        later acls asciis good found,
      )
    where
      later :
          (bs : List TokenAcl)
          → All HasAscii bs
          → All (Good (a.token ∷ seen)) bs
          → All (λ b. find_acl acls b.token ≡ some (some b)) bs
          → All (λ b. find_acl (a ∷ acls) b.token ≡ some (some b)) bs
      later [] asc g f = tt
      later (b ∷ bs) (ascii_b, asc) ((g, r), gs) (f, fs) = (
        find_acl-cons a acls b.token ascii ascii_b ∙ if_false (some (some a)) _ _ _ (other b g) f,
        later bs asc gs fs,
      )
        where
          if_false :
              (x y z : Option (Option TokenAcl)) (b : Bool)
              → b ≡ false
              → y ≡ z
              → (if b then x else y) ≡ z
          if_false x y z b e f = rw e f

          other :
              (b : TokenAcl)
              → any (λ t. text_eq b.token t) (a.token ∷ seen) ≡ false
              → text_eq a.token b.token ≡ false
          other b g = ground (arith, g, text_eq_iff a.token b.token, text_eq_iff b.token a.token)

  found-rooted :
      (seen : List Text) (acls : List TokenAcl) (token : Text) (acl : TokenAcl)
      → All (Good seen) acls
      → find_acl acls token ≡ some (some acl)
      → no_roots acl.allowed_roots ≡ false
  unfolding find_acl
  found-rooted seen [] token acl good h = ground arith
  found-rooted seen (a ∷ acls) token acl ((f, r), good) h =
      from (compare_digest a.token token) (found-rooted seen acls token acl good) h
    where
      from :
          (o : Option Bool)
          → (find_acl acls token ≡ some (some acl) → no_roots acl.allowed_roots ≡ false)
          → (elim o as (λ _. Option (Option TokenAcl)) [
            | none ↦ none
            | some same ↦ if same then some (some a) else find_acl acls token
          ])
            ≡ some (some acl)
          → no_roots acl.allowed_roots ≡ false
      from none later h = ground arith
      from (some true) later h = let same : a ≡ acl = ground arith in cc
      from (some false) later h = later h

  validate_config-loop :
      (config : SharedServerConfig)
      → config.enabled ≡ true
      → validate_config isabs config ≡ []
      → validate_loop isabs 0 [] config.token_acls ≡ []
  unfolding validate_config validate_acls
  validate_config-loop config on h =
      nonempty config.token_acls
        (let q : validate_acls isabs config.token_acls ≡ [] = ground arith in q)
    where
      nonempty :
          (acls : List TokenAcl)
          → validate_acls isabs acls ≡ []
          → validate_loop isabs 0 [] acls ≡ []
      nonempty [] h = ground arith
      nonempty (a ∷ acls) h = h

  -- In an enabled configuration that validates without errors, and whose tokens are ASCII, the
  -- lookup of the token of any entry does not raise, and finds that very entry.
  pub acl_for_token_self :
      (config : SharedServerConfig)
      → config.enabled ≡ true
      → validate_config isabs config ≡ []
      → All HasAscii config.token_acls
      → All (λ acl. acl_for_token config acl.token ≡ some (some acl)) config.token_acls
  unfolding acl_for_token
  acl_for_token_self config on h ascii =
      find_acl_self 0 [] config.token_acls (validate_config-loop config on h) ascii

  module _ {P : Type 0} (resolve : Text → P) (relative_to : P → P → Bool)
      (normalize : Text → Text) where
    -- The result lies in a root of the token.
    abbrev pub within : TokenAcl → Payload → Bool
    within acl result =
        any (λ root. relative_to (resolve (path_of result)) (resolve (normalize root)))
          acl.allowed_roots

    path_within_roots-any :
        (acl : TokenAcl) (result : Payload)
        → no_roots acl.allowed_roots ≡ false
        → path_within_roots resolve relative_to normalize
            (path_of result)
            (normalized_roots resolve relative_to normalize acl)
          ≡ within acl result
    unfolding path_within_roots normalized_roots no_roots
    path_within_roots-any acl result h = go acl.allowed_roots h
      where
        inside : Text → Bool
        inside r = relative_to (resolve (path_of result)) (resolve r)

        go :
            (roots : List Text)
            → no_roots roots ≡ false
            → path_within_roots resolve relative_to normalize (path_of result) (map normalize roots)
              ≡ any
                  (λ root. relative_to (resolve (path_of result)) (resolve (normalize root)))
                  roots
        go [] h = ground arith
        go (r ∷ rs) h = any-map inside normalize (r ∷ rs)

    filter_loop-keep :
        (acl : TokenAcl) (results : List Payload)
        → no_roots acl.allowed_roots ≡ false
        → filter_loop resolve relative_to normalize
            (normalized_roots resolve relative_to normalize acl)
            results
          ≡ record {
            allowed = keep (within acl) results;
            denied_count = length (keep (λ r. not (within acl r)) results);
          }
    unfolding filter_loop
    filter_loop-keep acl [] h = refl
    filter_loop-keep acl (result ∷ results) h =
        let same = path_within_roots-any acl result h in
        elim (Bool-cases (within acl result)) [
          | inl e ↦ rw (same, e, filter_loop-keep acl results h) refl
          | inr e ↦ rw (same, e, filter_loop-keep acl results h) refl
        ]

    -- In an enabled configuration that validates without errors, the filter for a token that has an entry allows exactly the results that lie in one of the entry's roots, in their order, and counts the others as denied.
    pub filter_results_by_acl-confines :
        (config : SharedServerConfig) (token : Text) (acl : TokenAcl) (results : List Payload)
        → config.enabled ≡ true
        → validate_config isabs config ≡ []
        → acl_for_token config token ≡ some (some acl)
        → filter_results_by_acl resolve relative_to normalize results (some acl) ≡ record {
          allowed = keep (within acl) results;
          denied_count = length (keep (λ r. not (within acl r)) results);
        }
    unfolding filter_results_by_acl filter_with no_roots acl_for_token
    filter_results_by_acl-confines config token acl results on valid found =
        nonempty acl.allowed_roots rooted
      where
        rooted : no_roots acl.allowed_roots ≡ false
        rooted =
            found-rooted [] config.token_acls token acl
              (validate_loop-Good 0 [] config.token_acls (validate_config-loop config on valid))
              found

        nonempty :
            (roots : List Text)
            → no_roots roots ≡ false
            → filter_with resolve relative_to normalize results acl roots ≡ record {
              allowed = keep (within acl) results;
              denied_count = length (keep (λ r. not (within acl r)) results);
            }
        nonempty [] h = ground arith
        nonempty (r ∷ rs) h = filter_loop-keep acl results rooted
