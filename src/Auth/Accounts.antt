-- ===== src/Auth/Accounts.antt =====
-- modules/auth/auth.service.ts and modules/users/users.service.ts: the accounts of an address.
use task_scheduling_platform.Base.{
  ℕ, ◌≡◌, ◌⊎◌, sym, subst, Bool, true, false, List, [], ◌∷◌, ◌++◌, arith, In, In-snoc, inl, inr,
  find, length, ltb,
}
use task_scheduling_platform.World.{Email, User, World}
use task_scheduling_platform.Users
use task_scheduling_platform.Users.{has_email}
use task_scheduling_platform.Auth.{SignupDto, Crypto, Draw, signup}
use task_scheduling_platform.Auth.RefreshTokens
use task_scheduling_platform.Auth.RefreshTokens.{SessionContext}

-- Users with one address, letter case aside, are one row.
abbrev pub HasUniqueEmails : (Email → Email) → List User → Type 0
HasUniqueEmails fold users =
    (u v : User) → In u users → In v users → fold u.email ≡ fold v.email → u ≡ v

none_found :
    {A : Type 0} (p : A → Bool) (xs : List A) (x : A)
    → ltb 0 (length (find p xs)) ≡ false
    → In x xs
    → p x ≡ false
none_found p [] x h m = absurd m
none_found p (y ∷ xs) x h m = ground (arith, none_found p xs x)

module _ (crypto : Crypto) (ttl_ms : ℕ) (draw : Draw) (dto : SignupDto) (ctx : SessionContext)
    (w : World) where
  abbrev account : User
  account = record {
    id = draw.user_stamp.id;
    email = dto.email;
    password_hash = crypto.argon_hash dto.password;
    name = dto.name;
    is_active = true;
    created_at = draw.user_stamp.at;
    updated_at = draw.user_stamp.at;
  }

  signup_rows :
      ((signup crypto ttl_ms draw dto ctx w).1.users ≡ w.users)
      ⊎ ((signup crypto ttl_ms draw dto ctx w).1.users ≡ w.users ++ account ∷ [])
        × (ltb 0 (length (find (has_email crypto.fold dto.email) w.users)) ≡ false)
  unfolding signup Users.exists_by_email Users.create RefreshTokens.issue_for_new_session
      RefreshTokens.create_token
  signup_rows = ground arith

  -- A signup, whatever comes of it, leaves at most one account for an address, letter case aside, if
  -- it was so before.
  pub signup-HasUniqueEmails :
      HasUniqueEmails crypto.fold w.users
      → HasUniqueEmails crypto.fold (signup crypto ttl_ms draw dto ctx w).1.users
  signup-HasUniqueEmails unique = elim signup_rows [
    | inl same ↦ subst (HasUniqueEmails crypto.fold) (sym same) unique
    | inr (written, free) ↦ subst (HasUniqueEmails crypto.fold) (sym written) (λ u v m k e.
        let m' = In-snoc u account w.users m in
        let k' = In-snoc v account w.users k in
        let p = none_found (has_email crypto.fold dto.email) w.users u free in
        let q = none_found (has_email crypto.fold dto.email) w.users v free in
        ground (arith, unique u v, p, q))
  ]
