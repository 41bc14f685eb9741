-- ===== src/Provider/Managers/Choice.antt =====
-- Which identity manager serves a request.
use lico.Base.{String, true, ◌≡◌, ◌⊎◌, arith, eq_iff}
use lico.Errors.{ok}
use lico.Identity.{ManagerRef, identity_manager, guest_manager}
use lico.Provider.Managers.{IdentityManagers, get_identity_manager}

module _ (managers : IdentityManagers) where
  -- The manager of a named provider is found exactly if the name is empty, which stands for the default
  -- manager, or that of the default manager, or that of the guest manager where there is one; and a manager
  -- that is found for a name that is not empty has that name.
  pub get_identity_manager_name :
      (provider : String) (m : ManagerRef)
      → get_identity_manager managers provider ≡ ok m
      → (provider ≡ "") × (m ≡ identity_manager)
        ⊎ (managers.name m ≡ provider) × ((m ≡ identity_manager) ⊎ (managers.has_guest ≡ true))
  unfolding get_identity_manager
  get_identity_manager_name provider identity_manager h =
      ground (arith, eq_iff provider "", eq_iff provider (managers.name identity_manager))
  get_identity_manager_name provider guest_manager h = ground (
    arith,
    eq_iff provider "",
    eq_iff provider (managers.name identity_manager),
    eq_iff provider (managers.name guest_manager),
  )
