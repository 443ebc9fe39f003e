-- ===== src/Repositories/Visibility.antt =====
-- What a tenant sees: the lists and the lookups of app/db/repositories.py agree.
use vendorops_ai.Base.{
  ◌≡◌, ◌≢◌, refl, sym, ap, subst, ◌↔◌, ◌⊎◌, inl, inr, String, Bool, true, false, ◌||◌, Option, none,
  some, List, [], ◌∷◌, leb, str_eq, eq_iff, opt_eq, find_if, Has, All, All-Has, Has-keep_if,
  Bool-cases, if◌then◌else◌,
}
use vendorops_ai.Db.{ExtractedRecord, GeneratedReport, Database}
use vendorops_ai.Repositories.Tenant.{
  Scoped, is_foreign, is_null, is_tenant_match, where_scope, apply_tenant_filter, insert_row,
  matched, newest_first, list_rows, get_row,
}
use vendorops_ai.Repositories.Reads.{
  extracted_records, generated_reports, get_extracted_record, list_extracted_records,
  get_generated_report, list_generated_reports,
}

-- A row whose column is not set belongs to everyone.
unfoldable pub Sees : Option String → Option String → Type 0
Sees wanted found = (w f : String) → wanted ≡ some w → found ≡ some f → f ≡ w

foreign_iff : (wanted found : Option String) → (is_foreign wanted found ≡ false) ↔ Sees wanted found
unfolding is_foreign Sees
foreign_iff none found = ((λ h w f p q. absurd (cc p)), (λ h. refl))
foreign_iff (some w) none = ((λ h w f p q. absurd (cc q)), (λ h. refl))
foreign_iff (some w) (some f) = elim (Bool-cases (str_eq f w)) [
  | inl e ↦ rw e ((λ h x y p q. cc (p, q, (eq_iff f w).0 e)), (λ h. refl))
  | inr e ↦ rw e ((λ h. absurd (cc h)), (λ h. absurd (cc (e, (eq_iff f w).1 (h w f refl refl)))))
]

match_column :
    (w : String) (found : Option String)
    → (opt_eq found w || is_null found ≡ true) ↔ Sees (some w) found
unfolding is_null Sees
match_column w none = ((λ h x y p q. absurd (cc q)), (λ h. refl))
match_column w (some f) = elim (Bool-cases (str_eq f w)) [
  | inl e ↦ rw e ((λ h x y p q. cc (p, q, (eq_iff f w).0 e)), (λ h. refl))
  | inr e ↦ rw e ((λ h. absurd (cc h)), (λ h. absurd (cc (e, (eq_iff f w).1 (h w f refl refl)))))
]

module _ {A : Type 0} (s : Scoped A) where
  unfoldable pub IsVisible : Option String → Option String → A → Type 0
  unfolding Sees
  IsVisible organization workspace r =
      Sees organization (s.organization_id r) × Sees workspace (s.workspace_id r)

  abbrev pub Unique : List A → Type 0
  Unique [] = Unit
  Unique (x ∷ xs) = All (λ y. s.id y ≢ s.id x) xs × Unique xs

  match_iff : (o w : Option String) (r : A) → (is_tenant_match s o w r ≡ true) ↔ IsVisible o w r
  unfolding is_tenant_match IsVisible
  match_iff o w r =
      let a = foreign_iff o (s.organization_id r) in
      let b = foreign_iff w (s.workspace_id r) in
      elim (Bool-cases (is_foreign o (s.organization_id r))) [
        | inl e ↦ rw e ((λ h. absurd (cc h)), (λ h. absurd (cc (e, a.1 h.0))))
        | inr e ↦ elim (Bool-cases (is_foreign w (s.workspace_id r))) [
          | inl f ↦ rw (e, f) ((λ h. absurd (cc h)), (λ h. absurd (cc (f, b.1 h.1))))
          | inr f ↦ rw (e, f) ((λ h. (a.0 e, b.0 f)), (λ h. refl))
        ]
      ]

  Has-where :
      (column : A → Option String) (wanted : Option String) (r : A) (rows : List A)
      → Has r (where_scope s column wanted rows) ↔ (Has r rows × Sees wanted (column r))
  unfolding where_scope Sees
  Has-where column none r rows = ((λ h. (h, λ w f p q. absurd (cc p))), (λ h. h.0))
  Has-where column (some w) r rows =
      let a = Has-keep_if (λ x. opt_eq (column x) w || is_null (column x)) r rows in
      let b = match_column w (column r) in
      ((λ h. let (m, t) = a.0 h in (m, b.0 t)), (λ (m, t). a.1 (m, b.1 t)))

  Has-insert : (r x : A) (xs : List A) → Has r (insert_row s x xs) ↔ ((x ≡ r) ⊎ Has r xs)
  unfolding insert_row
  Has-insert r x [] = ((λ h. h), (λ h. h))
  Has-insert r x (y ∷ ys) = elim (Bool-cases (leb (s.created_at y) (s.created_at x))) [
    | inl e ↦ rw e ((λ h. h), (λ h. h))
    | inr e ↦ rw e (
      (λ h. elim h [
        | inl q ↦ inr (inl q)
        | inr m ↦ elim ((Has-insert r x ys).0 m) [ inl q ↦ inl q | inr k ↦ inr (inr k) ]
      ]),
      (λ h. elim h [
        | inl q ↦ inr ((Has-insert r x ys).1 (inl q))
        | inr m ↦ elim m [ inl q ↦ inl q | inr k ↦ inr ((Has-insert r x ys).1 (inr k)) ]
      ]),
    )
  ]

  Has-newest_first : (r : A) (xs : List A) → Has r (newest_first s xs) ↔ Has r xs
  unfolding newest_first
  Has-newest_first r [] = ((λ h. h), (λ h. h))
  Has-newest_first r (x ∷ xs) =
      let a = Has-insert r x (newest_first s xs) in
      let b = Has-newest_first r xs in
      (
        (λ h. elim (a.0 h) [ inl q ↦ inl q | inr m ↦ inr (b.0 m) ]),
        (λ h. elim h [ inl q ↦ a.1 (inl q) | inr m ↦ a.1 (inr (b.1 m)) ]),
      )

  pub Has-list_rows :
      (o w : Option String) (r : A) (rows : List A)
      → Has r (list_rows s o w rows) ↔ (Has r rows × IsVisible o w r)
  unfolding list_rows apply_tenant_filter IsVisible
  Has-list_rows o w r rows =
      let first = where_scope s s.organization_id o rows in
      let a = Has-newest_first r (where_scope s s.workspace_id w first) in
      let b = Has-where s.workspace_id w r first in
      let c = Has-where s.organization_id o r rows in
      (
        (λ h. let (m, t) = b.0 (a.0 h) in let (k, u) = c.0 m in (k, (u, t))),
        (λ (k, (u, t)). a.1 (b.1 (c.1 (k, u), t))),
      )

  find-none :
      (k : String) (xs : List A)
      → All (λ y. s.id y ≢ k) xs
      → find_if (λ x. str_eq (s.id x) k) xs ≡ none
  find-none k [] h = refl
  find-none k (x ∷ xs) h = elim (Bool-cases (str_eq (s.id x) k)) [
    | inl e ↦ absurd (h.0 ((eq_iff (s.id x) k).0 e))
    | inr e ↦ rw e (find-none k xs h.1)
  ]

  pub find-Has :
      (r : A) (xs : List A)
      → Unique xs
      → Has r xs
      → find_if (λ x. str_eq (s.id x) (s.id r)) xs ≡ some r
  find-Has r [] u h = absurd h
  find-Has r (x ∷ xs) u (inl q) = rw ((eq_iff (s.id x) (s.id r)).1 (ap s.id q)) (ap some q)
  find-Has r (x ∷ xs) u (inr m) = elim (Bool-cases (str_eq (s.id x) (s.id r))) [
    | inl e ↦
        absurd (All-Has (λ y. s.id y ≢ s.id x) r xs u.0 m (sym ((eq_iff (s.id x) (s.id r)).0 e)))
    | inr e ↦ rw e (find-Has r xs u.1 m)
  ]

  found-Has :
      (k : String) (r : A) (xs : List A) → find_if (λ x. str_eq (s.id x) k) xs ≡ some r → Has r xs
  found-Has k r [] h = absurd (cc h)
  found-Has k r (x ∷ xs) h = by_test (str_eq (s.id x) k) h (found-Has k r xs)
    where
      by_test :
          {o : Option A} (b : Bool)
          → (if b then some x else o) ≡ some r
          → (o ≡ some r → Has r xs)
          → (x ≡ r) ⊎ Has r xs
      by_test true q f = inl (cc q)
      by_test false q f = inr (f q)

  matched_iff :
      (o w : Option String) (f : Option A) (r : A)
      → (matched s o w f ≡ some r) ↔ ((f ≡ some r) × IsVisible o w r)
  unfolding matched
  matched_iff o w none r = ((λ h. absurd (cc h)), (λ h. absurd (cc (h.0))))
  matched_iff o w (some x) r = elim (Bool-cases (is_tenant_match s o w x)) [
    | inl e ↦
        rw e ((λ h. (h, subst (IsVisible o w) (the_row h) ((match_iff o w x).0 e))), (λ h. h.0))
    | inr e ↦ rw e (
      (λ h. absurd (cc h)),
      (λ h. absurd (cc (e, (match_iff o w x).1 (subst (IsVisible o w) (sym (the_row h.0)) h.1)))),
    )
  ]
    where
      the_row : some x ≡ some r → x ≡ r
      the_row q = cc q

  -- A row is listed for a tenant exactly when a lookup of its id by that tenant finds it.
  pub list_rows-get_row :
      (o w : Option String) (r : A) (rows : List A)
      → Unique rows
      → Has r (list_rows s o w rows) ↔ (get_row s (s.id r) o w rows ≡ some r)
  unfolding get_row
  list_rows-get_row o w r rows u =
      let a = Has-list_rows o w r rows in
      let b = matched_iff o w (find_if (λ x. str_eq (s.id x) (s.id r)) rows) r in
      (
        (λ h. let (m, v) = a.0 h in b.1 (find-Has r rows u m, v)),
        (λ h. let (q, v) = b.0 h in a.1 (found-Has (s.id r) r rows q, v)),
      )

-- With unique ids, a tenant's list of extracted records has a record exactly when the tenant's lookup of
-- its id finds that record, and so for generated reports.
pub list-get :
    (o w : Option String) (r : ExtractedRecord) (g : GeneratedReport) (db : Database)
    → Unique extracted_records db.extracted_records
    → Unique generated_reports db.generated_reports
    → (Has r (list_extracted_records o w db) ↔ (get_extracted_record o w r.id db ≡ some r))
      × (Has g (list_generated_reports o w db) ↔ (get_generated_report o w g.id db ≡ some g))
unfolding list_extracted_records get_extracted_record list_generated_reports get_generated_report
list-get o w r g db u v = (
  list_rows-get_row extracted_records o w r db.extracted_records u,
  list_rows-get_row generated_reports o w g db.generated_reports v,
)
