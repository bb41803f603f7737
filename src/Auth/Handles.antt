-- ===== src/Auth/Handles.antt =====
-- The handles of an authentication: each is its own, used only while open, and closed at the end.
use open_arango_dbcore.Prelude.{
  ℕ, zero, suc, ◌≡◌, refl, ap, ◌⊎◌, Bool, true, false, ◌&&◌, not, Option, none, some, [], ◌∷◌, ◌++◌,
  Str, inl, inr, Bool-cases, arith,
}
use open_arango_dbcore.Auth.{
  LdapAuthMode, simple, search, LdapConfig, is_empty, c_str, LdapFunctions, World, is_open, without,
  used, uri_of, destroy_handle, tls_checked, negotiate, configure, initialized, create_handle,
  bind_user, search_entry, Call, set_option_call, start_tls_call, bind_call, search_call,
  first_entry_call, get_dn_call, get_values_call, entry_of, dn_of, values_of,
  fetch_roles_via_attribute, fetch_roles_via_search, fetch_roles, after_bind, bind_as,
  after_admin_bind, find_user, bind_at, bind_found, authenticate, any_object, roles_filter,
  uid_filter,
}

abbrev pub Clean : {W : Type 0} → World W → Type 0
Clean s = (s.open_handles ≡ []) × (s.misused ≡ false)

abbrev pub Owns : {W : Type 0} → ℕ → World W → Type 0
Owns handle s = (s.open_handles ≡ handle ∷ []) × (s.misused ≡ false)

abbrev pub Given : {W : Type 0} → Option ℕ → World W → Type 0
Given none s = Clean s
Given (some handle) s = Owns handle s

-- What the library says of ldap_initialize: a failing call gives no handle.
abbrev pub InitializesCleanly : {W : Type 0} → LdapFunctions W → Type 0
InitializesCleanly {W} lib =
    (uri : Str) (w : W) → ((lib.initialize uri w).0.0 ≡ 0) ⊎ ((lib.initialize uri w).0.1 ≡ none)

opened_once : (handle : ℕ) → is_open handle (handle ∷ []) ≡ true
opened_once handle = ground arith

closed_once : (handle : ℕ) → without handle (handle ∷ []) ≡ []
closed_once handle = ground arith

module _ {W : Type 0} (lib : LdapFunctions W) where
  Owns-used :
      (handle : ℕ) (call : Call) (w : W) (s : World W)
      → Owns handle s
      → Owns handle (used handle call w s)
  Owns-used handle call w s (opened, proper) =
      (opened, rw (opened, proper, opened_once handle) (refl))

  Clean-destroy_handle :
      (handle : ℕ) (s : World W) → Owns handle s → Clean (destroy_handle lib (some handle) s)
  unfolding destroy_handle
  Clean-destroy_handle handle s (opened, proper) =
      (rw (opened) (closed_once handle), rw (opened, proper, opened_once handle) (refl))

  Given-tls_checked :
      (handle rc : ℕ) (s : World W)
      → Owns handle s
      → Given (tls_checked lib handle rc s).0 (tls_checked lib handle rc s).1
  unfolding tls_checked
  Given-tls_checked handle zero s owns = owns
  Given-tls_checked handle (suc rc) s owns = Clean-destroy_handle handle s owns

  Given-negotiate :
      (starts : Bool) (handle : ℕ) (s : World W)
      → Owns handle s
      → Given (negotiate lib starts handle s).0 (negotiate lib starts handle s).1
  unfolding negotiate
  Given-negotiate false handle s owns = owns
  Given-negotiate true handle s owns =
      let (rc, w) = lib.start_tls_s handle s.library in
      let call : Call = start_tls_call handle rc in
      Given-tls_checked handle rc (used handle call w s) (Owns-used handle call w s owns)

  Owns-configure :
      (config : LdapConfig) (handle : ℕ) (s : World W)
      → Owns handle s
      → Owns handle (configure lib config handle s)
  unfolding configure
  Owns-configure config handle s owns =
      let w = lib.set_ca_cert_file handle (c_str config.tls_ca_cert_file) s.library in
      elim (Bool-cases (is_empty config.tls_ca_cert_file)) [
        | inl no_file ↦ rw (no_file) (owns)
        | inr given ↦ rw (given) (Owns-used handle (set_option_call handle) w s owns)
      ]

  Given-initialized :
      (config : LdapConfig) (given : ℕ × Option ℕ) (s : World W)
      → Clean s
      → (given.0 ≡ 0) ⊎ (given.1 ≡ none)
      → Given (initialized lib config given s).0 (initialized lib config given s).1
  unfolding initialized
  Given-initialized config (rc, none) s clean cleanly = clean
  Given-initialized config (zero, some handle) s (closed, proper) cleanly =
      let opened : World W = record s { open_handles = handle ∷ s.open_handles } in
      Given-negotiate (config.use_tls && not config.use_ldaps) handle
        (configure lib config handle opened)
        (Owns-configure config handle opened (ap (λ hs. handle ∷ hs) closed, proper))
  Given-initialized config (suc rc, some handle) s clean cleanly = elim cleanly [
    | inl zero_code ↦ cc
    | inr no_handle ↦ cc
  ]

  Given-create_handle :
      (config : LdapConfig) (s : World W)
      → InitializesCleanly lib
      → Clean s
      → Given (create_handle lib config s).0 (create_handle lib config s).1
  unfolding create_handle
  Given-create_handle config s cleanly clean =
      let (given, w) = lib.initialize (c_str (uri_of config)) s.library in
      Given-initialized config given (record s { library = w }) clean
        (cleanly (c_str (uri_of config)) s.library)

  Owns-bind_user :
      (handle : ℕ) (dn password : Str) (s : World W)
      → Owns handle s
      → Owns handle (bind_user lib (some handle) dn password s).1
  unfolding bind_user
  Owns-bind_user handle dn password s owns =
      let (rc, w) = lib.simple_bind handle (c_str dn) (c_str password) s.library in
      Owns-used handle (bind_call handle (c_str dn) (c_str password) rc) w s owns

  Owns-entry_of :
      (handle : ℕ) (found : ℕ × Option ℕ) (s : World W)
      → Owns handle s
      → Owns handle (entry_of lib handle found s).1
  unfolding entry_of
  Owns-entry_of handle (zero, some message) s owns =
      let (entry, w) = lib.first_entry handle message s.library in
      Owns-used handle (first_entry_call handle message entry) w s owns
  Owns-entry_of handle (zero, none) s owns = owns
  Owns-entry_of handle (suc rc, message) s owns = owns

  Owns-search_entry :
      (handle : ℕ) (base filter : Str) (s : World W)
      → Owns handle s
      → Owns handle (search_entry lib handle base filter s).1
  unfolding search_entry
  Owns-search_entry handle base filter s owns =
      let (found, w) = lib.search_ext_s handle (c_str base) (c_str filter) s.library in
      let call : Call = search_call handle (c_str base) (c_str filter) found in
      Owns-entry_of handle found (used handle call w s) (Owns-used handle call w s owns)

  Owns-dn_of :
      (handle : ℕ) (entry : Option ℕ) (s : World W)
      → Owns handle s
      → Owns handle (dn_of lib handle entry s).1
  unfolding dn_of
  Owns-dn_of handle none s owns = owns
  Owns-dn_of handle (some entry) s owns =
      let (dn, w) = lib.get_dn handle entry s.library in
      Owns-used handle (get_dn_call handle entry dn) w s owns

  Owns-values_of :
      (config : LdapConfig) (handle : ℕ) (entry : Option ℕ) (s : World W)
      → Owns handle s
      → Owns handle (values_of lib config handle entry s).1
  unfolding values_of
  Owns-values_of config handle none s owns = owns
  Owns-values_of config handle (some entry) s owns =
      let (vals, w) = lib.get_values_len handle entry (c_str config.roles_attribute) s.library in
      Owns-used handle (get_values_call handle entry) w s owns

  Owns-fetch_roles :
      (config : LdapConfig) (handle : ℕ) (user_dn : Str) (s : World W)
      → Owns handle s
      → Owns handle (fetch_roles lib config handle user_dn s).1
  unfolding fetch_roles fetch_roles_via_attribute fetch_roles_via_search
  Owns-fetch_roles config handle user_dn s owns =
      let (entry, s1) = search_entry lib handle user_dn any_object s in
      let by_attribute =
        Owns-values_of config handle entry s1
          (Owns-search_entry handle user_dn any_object s owns) in
      let filter = roles_filter config user_dn in
      let (group, s2) = search_entry lib handle config.basedn filter s in
      let by_search =
        Owns-dn_of handle group s2 (Owns-search_entry handle config.basedn filter s owns) in
      elim (Bool-cases (is_empty config.roles_attribute)) [
        | inr given ↦ rw (given) (by_attribute)
        | inl no_attribute ↦ elim (Bool-cases (is_empty config.roles_search)) [
          | inr given ↦ rw (no_attribute, given) (by_search)
          | inl no_search ↦ rw (no_attribute, no_search) (owns)
        ]
      ]

  Clean-after_bind :
      (config : LdapConfig) (handle : ℕ) (dn : Str) (bound : Bool) (s : World W)
      → Owns handle s
      → Clean (after_bind lib config handle dn bound s).1
  unfolding after_bind
  Clean-after_bind config handle dn false s owns = Clean-destroy_handle handle s owns
  Clean-after_bind config handle dn true s owns =
      Clean-destroy_handle handle (fetch_roles lib config handle dn s).1
        (Owns-fetch_roles config handle dn s owns)

  Clean-bind_as :
      (config : LdapConfig) (dn password : Str) (handle : Option ℕ) (s : World W)
      → Given handle s
      → Clean (bind_as lib config dn password handle s).1
  unfolding bind_as
  Clean-bind_as config dn password none s clean = clean
  Clean-bind_as config dn password (some handle) s owns =
      let (bound, s') = bind_user lib (some handle) dn password s in
      Clean-after_bind config handle dn bound s' (Owns-bind_user handle dn password s owns)

  Clean-bind_at :
      (config : LdapConfig) (dn password : Str) (s : World W)
      → InitializesCleanly lib
      → Clean s
      → Clean (bind_at lib config dn password s).1
  unfolding bind_at
  Clean-bind_at config dn password s cleanly clean =
      let (handle, s') = create_handle lib config s in
      Clean-bind_as config dn password handle s' (Given-create_handle config s cleanly clean)

  Clean-bind_found :
      (config : LdapConfig) (dn password : Str) (s : World W)
      → InitializesCleanly lib
      → Clean s
      → Clean (bind_found lib config dn password s).1
  unfolding bind_found
  Clean-bind_found config [] password s cleanly clean = clean
  Clean-bind_found config (c ∷ dn) password s cleanly clean =
      Clean-bind_at config (c ∷ dn) password s cleanly clean

  Clean-after_admin_bind :
      (config : LdapConfig) (handle : ℕ) (username : Str) (bound : Bool) (s : World W)
      → Owns handle s
      → Clean (after_admin_bind lib config handle username bound s).1
  unfolding after_admin_bind
  Clean-after_admin_bind config handle username false s owns = Clean-destroy_handle handle s owns
  Clean-after_admin_bind config handle username true s owns =
      let (entry, s1) = search_entry lib handle config.basedn (uid_filter username) s in
      Clean-destroy_handle handle (dn_of lib handle entry s1).1 (
        Owns-dn_of handle entry s1
          (Owns-search_entry handle config.basedn (uid_filter username) s owns))

  Clean-find_user :
      (config : LdapConfig) (username : Str) (handle : Option ℕ) (s : World W)
      → Given handle s
      → Clean (find_user lib config username handle s).1
  unfolding find_user
  Clean-find_user config username none s clean = clean
  Clean-find_user config username (some handle) s owns =
      let (bound, s') = bind_user lib (some handle) config.binddn config.bindpasswd s in
      Clean-after_admin_bind config handle username bound s'
        (Owns-bind_user handle config.binddn config.bindpasswd s owns)

  -- The two modes of authenticate.
  Clean-modes :
      (mode : LdapAuthMode) (config : LdapConfig) (username password : Str) (s : World W)
      → InitializesCleanly lib
      → Clean s
      → config.mode ≡ mode
      → Clean (authenticate lib config username password s).1
  unfolding authenticate
  Clean-modes simple config username password s cleanly clean chosen =
      rw (chosen)
        (Clean-bind_at config (config.prefix ++ username ++ config.suffix) password s cleanly clean)
  Clean-modes search config username password s cleanly clean chosen =
      let (handle, s1) = create_handle lib config s in
      let (dn, s2) = find_user lib config username handle s1 in
      rw (chosen) (
        Clean-bind_found config dn password s2 cleanly
          (Clean-find_user config username handle s1 (Given-create_handle config s cleanly clean)))

-- Whatever the directory answers, an authentication closes every handle it opened and makes every
-- call, those that read an entry included, with a handle that is open: if no handle was open or
-- misused before, and a failing ldap_initialize gives none, then none is open or misused afterwards.
pub authenticate-Clean :
    {W : Type 0} (lib : LdapFunctions W) (config : LdapConfig) (username password : Str)
    (s : World W)
    → InitializesCleanly lib
    → Clean s
    → Clean (authenticate lib config username password s).1
authenticate-Clean lib config username password s cleanly clean =
    Clean-modes lib config.mode config username password s cleanly clean refl
