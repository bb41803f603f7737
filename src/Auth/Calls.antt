-- ===== src/Auth/Calls.antt =====
-- The ledger's calls: what happened stays, whatever the handler does after it.
use open_arango_dbcore.Prelude.{
  ℕ, zero, suc, Bool, true, false, ◌&&◌, not, Option, none, some, List, [], ◌∷◌, Str, inl, inr,
  Bool-cases,
}
use open_arango_dbcore.Auth.{
  LdapConfig, c_str, is_empty, LdapFunctions, World, Call, search_call, first_entry_call,
  get_dn_call, get_values_call, set_option_call, start_tls_call, unbind_call, used, uri_of,
  roles_filter, any_object, destroy_handle, tls_checked, negotiate, configure, initialized,
  create_handle, entry_of, search_entry, dn_of, values_of, fetch_roles_via_attribute,
  fetch_roles_via_search, fetch_roles,
}

-- The calls of the first list happened among those of the second, in its order; the last call is the
-- first of either.
pub data Happened : List Call → List Call → Type 0 where
  nothing : (calls : List Call) → Happened [] calls
  last :
      (call : Call) (before calls : List Call)
      → Happened before calls
      → Happened (call ∷ before) (call ∷ calls)
  earlier :
      (wanted : List Call) (call : Call) (calls : List Call)
      → Happened wanted calls
      → Happened wanted (call ∷ calls)

module _ {W : Type 0} (lib : LdapFunctions W) (wanted : List Call) where
  pub Happened-destroy_handle :
      (handle : ℕ) (s : World W)
      → Happened wanted s.calls
      → Happened wanted (destroy_handle lib (some handle) s).calls
  unfolding destroy_handle
  Happened-destroy_handle handle s happened = earlier wanted (unbind_call handle) s.calls happened

  Happened-tls_checked :
      (handle rc : ℕ) (s : World W)
      → Happened wanted s.calls
      → Happened wanted (tls_checked lib handle rc s).1.calls
  unfolding tls_checked
  Happened-tls_checked handle zero s happened = happened
  Happened-tls_checked handle (suc rc) s happened = Happened-destroy_handle handle s happened

  Happened-negotiate :
      (starts : Bool) (handle : ℕ) (s : World W)
      → Happened wanted s.calls
      → Happened wanted (negotiate lib starts handle s).1.calls
  unfolding negotiate
  Happened-negotiate false handle s happened = happened
  Happened-negotiate true handle s happened =
      let (rc, w) = lib.start_tls_s handle s.library in
      let call : Call = start_tls_call handle rc in
      Happened-tls_checked handle rc (used handle call w s) (earlier wanted call s.calls happened)

  Happened-configure :
      (config : LdapConfig) (handle : ℕ) (s : World W)
      → Happened wanted s.calls
      → Happened wanted (configure lib config handle s).calls
  unfolding configure
  Happened-configure config handle s happened =
      elim (Bool-cases (is_empty config.tls_ca_cert_file)) [
        | inl no_file ↦ rw (no_file) (happened)
        | inr given ↦ rw (given) (earlier wanted (set_option_call handle) s.calls happened)
      ]

  Happened-initialized :
      (config : LdapConfig) (given : ℕ × Option ℕ) (s : World W)
      → Happened wanted s.calls
      → Happened wanted (initialized lib config given s).1.calls
  unfolding initialized
  Happened-initialized config (rc, none) s happened = happened
  Happened-initialized config (zero, some handle) s happened =
      let opened : World W = record s { open_handles = handle ∷ s.open_handles } in
      Happened-negotiate (config.use_tls && not config.use_ldaps) handle
        (configure lib config handle opened) (Happened-configure config handle opened happened)
  Happened-initialized config (suc rc, some handle) s happened = happened

  pub Happened-create_handle :
      (config : LdapConfig) (s : World W)
      → Happened wanted s.calls
      → Happened wanted (create_handle lib config s).1.calls
  unfolding create_handle
  Happened-create_handle config s happened =
      let (given, w) = lib.initialize (c_str (uri_of config)) s.library in
      Happened-initialized config given (record s { library = w }) happened

  Happened-entry_of :
      (handle : ℕ) (found : ℕ × Option ℕ) (s : World W)
      → Happened wanted s.calls
      → Happened wanted (entry_of lib handle found s).1.calls
  unfolding entry_of
  Happened-entry_of handle (zero, some message) s happened =
      let (entry, w) = lib.first_entry handle message s.library in
      earlier wanted (first_entry_call handle message entry) s.calls happened
  Happened-entry_of handle (zero, none) s happened = happened
  Happened-entry_of handle (suc rc, message) s happened = happened

  Happened-search_entry :
      (handle : ℕ) (base filter : Str) (s : World W)
      → Happened wanted s.calls
      → Happened wanted (search_entry lib handle base filter s).1.calls
  unfolding search_entry
  Happened-search_entry handle base filter s happened =
      let (found, w) = lib.search_ext_s handle (c_str base) (c_str filter) s.library in
      let call : Call = search_call handle (c_str base) (c_str filter) found in
      Happened-entry_of handle found (used handle call w s) (earlier wanted call s.calls happened)

  Happened-dn_of :
      (handle : ℕ) (entry : Option ℕ) (s : World W)
      → Happened wanted s.calls
      → Happened wanted (dn_of lib handle entry s).1.calls
  unfolding dn_of
  Happened-dn_of handle none s happened = happened
  Happened-dn_of handle (some entry) s happened =
      let (dn, w) = lib.get_dn handle entry s.library in
      earlier wanted (get_dn_call handle entry dn) s.calls happened

  Happened-values_of :
      (config : LdapConfig) (handle : ℕ) (entry : Option ℕ) (s : World W)
      → Happened wanted s.calls
      → Happened wanted (values_of lib config handle entry s).1.calls
  unfolding values_of
  Happened-values_of config handle none s happened = happened
  Happened-values_of config handle (some entry) s happened =
      earlier wanted (get_values_call handle entry) s.calls happened

  pub Happened-fetch_roles :
      (config : LdapConfig) (handle : ℕ) (user_dn : Str) (s : World W)
      → Happened wanted s.calls
      → Happened wanted (fetch_roles lib config handle user_dn s).1.calls
  unfolding fetch_roles fetch_roles_via_attribute fetch_roles_via_search
  Happened-fetch_roles config handle user_dn s happened =
      let (entry, s1) = search_entry lib handle user_dn any_object s in
      let by_attribute =
        Happened-values_of config handle entry s1
          (Happened-search_entry handle user_dn any_object s happened) in
      let filter = roles_filter config user_dn in
      let (group, s2) = search_entry lib handle config.basedn filter s in
      let by_search =
        Happened-dn_of handle group s2
          (Happened-search_entry handle config.basedn filter s happened) in
      elim (Bool-cases (is_empty config.roles_attribute)) [
        | inr given ↦ rw (given) (by_attribute)
        | inl no_attribute ↦ elim (Bool-cases (is_empty config.roles_search)) [
          | inr given ↦ rw (no_attribute, given) (by_search)
          | inl no_search ↦ rw (no_attribute, no_search) (happened)
        ]
      ]
