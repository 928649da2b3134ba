-- ===== src/Samples/SetResetCookie/Deletion.antt =====
-- plugins/samples/set_reset_cookie/plugin.cc: which cookies of a request go on.
use service_extensions_sampl.Base.{
  Text, ◌≤◌, ◌≡◌, refl, ap, ◌∙◌, inl, inr, Option, some, map, Bool-cases, ◌&&◌, Bool, true, false,
  not, ◌||◌, List, [], ◌∷◌, ◌++◌, arith, ltb, if◌then◌else◌, length, any, keep, codes, text_eq,
  has_text,
}
use service_extensions_sampl.Wasm.{HeaderMapType, request_headers, info}
use service_extensions_sampl.Sdk.{Sdk, IsLawful}
use service_extensions_sampl.Samples.SetResetCookie.{
  CookieConfig, Libraries, Cookies, is_delete, delete_cookies, process_cookie_deletions,
  rebuild_cookie_header,
}

-- The names that the configuration deletes.
abbrev pub deleted : List CookieConfig → List Text
deleted [] = []
deleted (c ∷ configs) = if is_delete c.operation then c.name ∷ deleted configs else deleted configs

-- The cookies whose names are not in a list.
abbrev pub without : List Text → Cookies → Cookies
without names cookies = keep (λ k. not (has_text k.0 names)) cookies

abbrev pub has_any : List Text → Cookies → Bool
has_any names cookies = any (λ k. has_text k.0 names) cookies

without-nil : (cookies : Cookies) → without [] cookies ≡ cookies
without-nil [] = refl
without-nil (k ∷ cookies) = ap (λ (l : Cookies). k ∷ l) (without-nil cookies)

has_any-nil : (cookies : Cookies) → has_any [] cookies ≡ false
has_any-nil [] = refl
has_any-nil (k ∷ cookies) = has_any-nil cookies

without-same :
    (names : List Text) (cookies : Cookies)
    → has_any names cookies ≡ false
    → without names cookies ≡ cookies
without-same names [] h = refl
without-same names (k ∷ cookies) h = ground (arith, without-same names cookies)

module _ (name : Text) where
  abbrev left : Cookies → Cookies
  left cookies = keep (λ k. not (text_eq k.0 name)) cookies

  without-left :
      (names : List Text) (cookies : Cookies)
      → without names (left cookies) ≡ without (name ∷ names) cookies
  without-left names [] = refl
  without-left names (k ∷ cookies) = ground (arith, without-left names cookies)

  length-left : (cookies : Cookies) → length (left cookies) ≤ length cookies
  length-left [] = omega arith
  length-left (k ∷ cookies) = ground (arith, length-left cookies)

  left-shorter :
      (names : List Text) (cookies : Cookies)
      → ltb (length (left cookies)) (length cookies) || has_any names (left cookies)
        ≡ has_any (name ∷ names) cookies
  left-shorter names [] = refl
  left-shorter names (k ∷ cookies) = ground (arith, left-shorter names cookies, length-left cookies)

  left-same :
      (cookies : Cookies)
      → ltb (length (left cookies)) (length cookies) ≡ false
      → left cookies ≡ cookies
  left-same [] h = refl
  left-same (k ∷ cookies) h = ground (arith, left-same cookies, length-left cookies)

module _ (lib : Libraries) {S : Type 0} (sdk : Sdk S) where
  delete_cookies-without :
      (configs : List CookieConfig) (cookies : Cookies) (modified : Bool) (s : S)
      → (delete_cookies lib sdk configs cookies modified s).0
        ≡ (without (deleted configs) cookies, modified || has_any (deleted configs) cookies)
  unfolding delete_cookies
  delete_cookies-without [] cookies modified s =
      ground (arith, without-nil cookies, has_any-nil cookies)
  delete_cookies-without (c ∷ configs) cookies modified s =
      let names = deleted configs in
      let rest = left c.name cookies in
      let s' = sdk.log info (codes "Marking cookie for deletion before CDN cache: " ++ c.name) s in
      ground (
        arith,
        delete_cookies-without configs cookies modified s,
        delete_cookies-without configs rest true s',
        delete_cookies-without configs rest modified s,
        without-left c.name names cookies,
        left-shorter c.name names cookies,
      )

  delete_cookies-same :
      (configs : List CookieConfig) (cookies : Cookies) (modified : Bool) (s : S)
      → has_any (deleted configs) cookies ≡ false
      → (delete_cookies lib sdk configs cookies modified s).1 ≡ s
  unfolding delete_cookies
  delete_cookies-same [] cookies modified s h = refl
  delete_cookies-same (c ∷ configs) cookies modified s h =
      let rest = left c.name cookies in
      ground (
        arith,
        delete_cookies-same configs cookies modified s,
        delete_cookies-same configs rest modified s,
        left-shorter c.name (deleted configs) cookies,
      )

  -- The `Cookie` header for the cookies that are left.
  abbrev pub cookie_header : Cookies → Option Text
  cookie_header [] = sdk.missing_header
  cookie_header (k ∷ cookies) =
      some (lib.str_join (map (λ c. c.0 ++ codes "=" ++ c.1) (k ∷ cookies)) (codes "; "))

  module _ (same : Text → Text → Bool) (Open : HeaderMapType → S → Type 0)
      (laws : IsLawful sdk same Open) where
    -- The log lines of the loop leave all headers as they are.
    delete_cookies-reads :
        (configs : List CookieConfig) (cookies : Cookies) (modified : Bool) (j : Text) (s : S)
        → Open request_headers s
        → let u = (delete_cookies lib sdk configs cookies modified s).1 in
          Open request_headers u
          × (sdk.get_header request_headers j u ≡ sdk.get_header request_headers j s)
    unfolding delete_cookies
    delete_cookies-reads [] cookies modified j s opened = (opened, refl)
    delete_cookies-reads (c ∷ configs) cookies modified j s opened =
        let rest = left c.name cookies in
        let line = codes "Marking cookie for deletion before CDN cache: " ++ c.name in
        elim (Bool-cases (is_delete c.operation)) [
          | inr e ↦
              rw (delete_cookies, e) (delete_cookies-reads configs cookies modified j s opened)
          | inl e ↦ elim (Bool-cases (ltb (length rest) (length cookies))) [
            | inr l ↦
                rw (delete_cookies, e, l) (delete_cookies-reads configs rest modified j s opened)
            | inl l ↦
                let (o, g) =
                  delete_cookies-reads configs rest true j (sdk.log info line s)
                    (laws.log-Open request_headers info line s opened) in
                rw (delete_cookies, e, l) ((o, g ∙ laws.get-log request_headers j info line s))
          ]
        ]

    rebuild-reads :
        (cookies : Cookies) (j : Text) (u : S)
        → Open request_headers u
        → sdk.get_header request_headers j (rebuild_cookie_header lib sdk cookies u) ≡ (
            if same j (codes "Cookie")
            then cookie_header cookies
            else sdk.get_header request_headers j u)
    unfolding rebuild_cookie_header
    rebuild-reads [] j u opened = laws.get-remove request_headers j (codes "Cookie") u opened
    rebuild-reads (k ∷ cookies) j u opened =
        laws.get-replace request_headers j (codes "Cookie") _ u opened

    -- A request keeps exactly the cookies whose names the configuration does not delete, every
    -- duplicate included and in their order. If none is deleted, the request is not changed. On a
    -- host that keeps its laws, if one is, the next plugin reads the cookies that are left in the
    -- `Cookie` header, or no such header if none is left; all other headers stay.
    pub deletions_keep_others :
        (configs : List CookieConfig) (cookies : Cookies) (j : Text) (s : S)
        → Open request_headers s
        → let out = process_cookie_deletions lib sdk configs cookies s in
          let kept = without (deleted configs) cookies in
          (out.0 ≡ kept)
          × (has_any (deleted configs) cookies ≡ false → (kept ≡ cookies) × (out.1 ≡ s))
          × (sdk.get_header request_headers j out.1 ≡ (
              if has_any (deleted configs) cookies && same j (codes "Cookie")
              then cookie_header kept
              else sdk.get_header request_headers j s))
    unfolding process_cookie_deletions
    deletions_keep_others configs cookies j s opened =
        let e = delete_cookies-without configs cookies false s in
        let (opened', reads) = delete_cookies-reads configs cookies false j s opened in
        let u = (delete_cookies lib sdk configs cookies false s).1 in
        let kept = without (deleted configs) cookies in
        (
          ap (λ (p : Cookies × Bool). p.0) e,
          λ h. (
            without-same (deleted configs) cookies h,
            ground (arith, e, delete_cookies-same configs cookies false s h),
          ),
          elim (Bool-cases (has_any (deleted configs) cookies)) [
            | inl h ↦ rw (e, h) (rw (rebuild-reads kept j u opened', reads) refl)
            | inr h ↦ rw (e, h) reads
          ],
        )
