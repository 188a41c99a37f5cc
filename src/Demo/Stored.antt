-- ===== src/Demo/Stored.antt =====
-- libuptiny-demo/state.c: the metadata and the installation state that the device keeps in memory.
use uptiny.Base.{
  ℕ, zero, suc, ◌+◌, ◌≡◌, refl, ◌∙◌, Bool, true, false, not, ◌&&◌, ltb, if◌then◌else◌, Option, none,
  some, Memory, write, arith,
}
use uptiny.State.{UptaneRoot, UptaneTargets, InstallationState, Attack}

-- The static variables.
pub record StoredState : Type 0 where
  pub stored_root : UptaneRoot
  pub stored_targets : UptaneTargets
  pub stored_installation_state : InstallationState
  pub installation_state_present : Bool

-- The loop over a table of keys: the rounds left and `i`.
pub copy_keys : ℕ → ℕ → Memory ℕ → Memory ℕ → Memory ℕ
copy_keys zero i from to = to
copy_keys (suc n) i from to = copy_keys n (i + 1) from (write to i (from i))

pub state_get_root : StoredState → UptaneRoot
state_get_root st = st.stored_root

pub state_set_root : UptaneRoot → StoredState → StoredState
state_set_root root st = record st {
  stored_root = record {
    version = root.version;
    expires = root.expires;
    root_threshold = root.root_threshold;
    root_keys_num = root.root_keys_num;
    root_keys = copy_keys root.root_keys_num 0 root.root_keys st.stored_root.root_keys;
    targets_threshold = root.targets_threshold;
    targets_keys_num = root.targets_keys_num;
    targets_keys = copy_keys root.targets_keys_num 0 root.targets_keys st.stored_root.targets_keys;
  };
}

pub state_set_targets : UptaneTargets → StoredState → StoredState
state_set_targets targets st = record st { stored_targets = targets }

pub state_set_installation_state : InstallationState → StoredState → StoredState
state_set_installation_state state st = record st {
  stored_installation_state = state;
  installation_state_present = true;
}

-- `none` is NULL.
pub state_get_installation_state : StoredState → Option InstallationState
state_get_installation_state st =
    if not st.installation_state_present then none else some st.stored_installation_state

pub state_set_attack : Attack → StoredState → StoredState
state_set_attack attack st = record st {
  installation_state_present = true;
  stored_installation_state = record st.stored_installation_state { attack = attack };
}

copy_keys-cells :
    (n i : ℕ) (from to : Memory ℕ) (j : ℕ)
    → copy_keys n i from to j ≡ (if not (ltb j i) && ltb j (i + n) then from j else to j)
unfolding copy_keys
copy_keys-cells zero i from to j =
    let out : (not (ltb j i) && ltb j (i + 0)) ≡ false = ground arith in rw out refl
copy_keys-cells (suc n) i from to j =
    copy_keys-cells n (i + 1) from (write to i (from i)) j ∙ ground arith

-- The keys of a stored root are those of the root that was set, up to their number.
pub state_get_root-state_set_root :
    (root : UptaneRoot) (st : StoredState) (j : ℕ)
    → let got = state_get_root (state_set_root root st) in
      (got.root_keys j
        ≡ (if ltb j root.root_keys_num then root.root_keys j else st.stored_root.root_keys j))
      × (got.targets_keys j ≡ (
          if ltb j root.targets_keys_num
          then root.targets_keys j
          else st.stored_root.targets_keys j))
unfolding state_get_root state_set_root
state_get_root-state_set_root root st j = (
  copy_keys-cells root.root_keys_num 0 root.root_keys st.stored_root.root_keys j ∙ ground arith,
  copy_keys-cells root.targets_keys_num 0 root.targets_keys st.stored_root.targets_keys j
      ∙ ground arith,
)
