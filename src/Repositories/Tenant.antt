-- ===== src/Repositories/Tenant.antt =====
-- is_tenant_match and apply_tenant_filter of app/db/repositories.py, over any table whose rows have an
-- id, an organization, a workspace and a time. An organization or a workspace that is not given is none.
-- Rows of one instant have no order of their own in SQL; here they keep the order of the table.
use vendorops_ai.Base.{
  ℕ, String, Bool, true, false, not, ◌||◌, Option, none, some, List, [], ◌∷◌, leb, str_eq, opt_eq,
  keep_if, find_if, if◌then◌else◌,
}

-- The columns of a table that belong to the tenant's scope.
pub record Scoped (A : Type 0) : Type 0 where
  pub id : A → String
  pub organization_id : A → Option String
  pub workspace_id : A → Option String
  pub created_at : A → ℕ

-- `wanted is not None and found not in (None, wanted)`
unfoldable pub is_foreign : Option String → Option String → Bool
is_foreign none found = false
is_foreign (some w) none = false
is_foreign (some w) (some f) = not (str_eq f w)

-- `column IS NULL`
unfoldable pub is_null : Option String → Bool
is_null none = true
is_null (some s) = false

module _ {A : Type 0} (s : Scoped A) where
  unfoldable pub is_tenant_match : Option String → Option String → A → Bool
  unfolding is_foreign
  is_tenant_match organization workspace r =
      if is_foreign organization (s.organization_id r)
      then false
      else (if is_foreign workspace (s.workspace_id r) then false else true)

  -- query.where(or_(column == wanted, column.is_(None))), if one is wanted
  unfoldable pub where_scope : (A → Option String) → Option String → List A → List A
  unfolding is_null
  where_scope column none rows = rows
  where_scope column (some w) rows = keep_if (λ r. opt_eq (column r) w || is_null (column r)) rows

  unfoldable pub apply_tenant_filter : Option String → Option String → List A → List A
  unfolding where_scope
  apply_tenant_filter organization workspace rows =
      where_scope s.workspace_id workspace (where_scope s.organization_id organization rows)

  unfoldable pub insert_row : A → List A → List A
  insert_row x [] = x ∷ []
  insert_row x (y ∷ ys) =
      let rest = insert_row x ys in
      if leb (s.created_at y) (s.created_at x) then x ∷ y ∷ ys else y ∷ rest

  -- order_by(created_at.desc())
  unfoldable pub newest_first : List A → List A
  unfolding insert_row
  newest_first [] = []
  newest_first (x ∷ xs) = insert_row x (newest_first xs)

  -- select(model), filtered and ordered
  unfoldable pub list_rows : Option String → Option String → List A → List A
  unfolding newest_first apply_tenant_filter
  list_rows organization workspace rows =
      newest_first (apply_tenant_filter organization workspace rows)

  -- What session.get found, if the tenant may have it.
  unfoldable pub matched : Option String → Option String → Option A → Option A
  unfolding is_tenant_match
  matched organization workspace none = none
  matched organization workspace (some r) =
      if not (is_tenant_match organization workspace r) then none else some r

  -- session.get(model, id), then the match
  unfoldable pub get_row : String → Option String → Option String → List A → Option A
  unfolding matched
  get_row id organization workspace rows =
      matched organization workspace (find_if (λ r. str_eq (s.id r) id) rows)
