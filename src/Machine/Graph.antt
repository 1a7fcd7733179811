-- ===== src/Machine/Graph.antt =====
-- The transition diagram of controllers/state.go, and that every handler follows it.
use picchu.Base.{ℕ, Bool, true, false, Option, none, ◌≡◌, arith}
use picchu.Deployment.{State, Deployment}
use picchu.Machine.{handle}

-- The states that a state may be followed by.
abbrev pub permits : State → State → Bool
permits State.created State.deleting = true
permits State.created State.timingout = true
permits State.created State.deploying = true
permits State.deploying State.deleting = true
permits State.deploying State.failing = true
permits State.deploying State.deployed = true
permits State.deploying State.timingout = true
permits State.deploying State.deploying = true
permits State.deployed State.deleting = true
permits State.deployed State.failing = true
permits State.deployed State.deploying = true
permits State.deployed State.tested = true
permits State.deployed State.testing = true
permits State.deployed State.pendingtest = true
permits State.deployed State.canarying = true
permits State.deployed State.pendingrelease = true
permits State.deployed State.retiring = true
permits State.deployed State.deployed = true
permits State.pendingtest State.deleting = true
permits State.pendingtest State.failing = true
permits State.pendingtest State.tested = true
permits State.pendingtest State.timingout = true
permits State.pendingtest State.testing = true
permits State.pendingtest State.pendingtest = true
permits State.testing State.deleting = true
permits State.testing State.failing = true
permits State.testing State.tested = true
permits State.testing State.timingout = true
permits State.testing State.pendingtest = true
permits State.testing State.deploying = true
permits State.testing State.testing = true
permits State.tested State.deleting = true
permits State.tested State.failing = true
permits State.tested State.pendingtest = true
permits State.tested State.testing = true
permits State.tested State.canarying = true
permits State.tested State.pendingrelease = true
permits State.tested State.timingout = true
permits State.tested State.tested = true
permits State.pendingrelease State.deleting = true
permits State.pendingrelease State.failing = true
permits State.pendingrelease State.retiring = true
permits State.pendingrelease State.releasing = true
permits State.pendingrelease State.pendingrelease = true
permits State.releasing State.deleting = true
permits State.releasing State.failing = true
permits State.releasing State.retiring = true
permits State.releasing State.released = true
permits State.releasing State.releasing = true
permits State.released State.deleting = true
permits State.released State.failing = true
permits State.released State.retiring = true
permits State.released State.released = true
permits State.released State.releasing = true
permits State.retiring State.retiring = true
permits State.retiring State.deleting = true
permits State.retiring State.failing = true
permits State.retiring State.deploying = true
permits State.retiring State.retired = true
permits State.retired State.deleting = true
permits State.retired State.failing = true
permits State.retired State.deploying = true
permits State.retired State.retired = true
permits State.deleting State.deleting = true
permits State.deleting State.deploying = true
permits State.deleting State.deleted = true
permits State.deleting State.timingout = true
permits State.deleted State.deploying = true
permits State.deleted State.deleted = true
permits State.failing State.failing = true
permits State.failing State.deleting = true
permits State.failing State.deploying = true
permits State.failing State.failed = true
permits State.failed State.deleting = true
permits State.failed State.deploying = true
permits State.failed State.failed = true
permits State.canarying State.deleting = true
permits State.canarying State.failing = true
permits State.canarying State.canaried = true
permits State.canarying State.canarying = true
permits State.canaried State.deleting = true
permits State.canaried State.failing = true
permits State.canaried State.pendingrelease = true
permits State.canaried State.canaried = true
permits State.timingout State.deleting = true
permits State.timingout State.failing = true
permits State.timingout State.timingout = true
permits _ _ = false

module _ {W Err : Type 0} (d : Deployment W Err) (last_updated : Option ℕ) where
  -- A handler that returns no error moves along an arrow of the diagram.
  pub handle-permits :
      (s : State) (w : W)
      → (handle d last_updated s w).1 ≡ none
      → permits s (handle d last_updated s w).0 ≡ true
  unfolding handle
  handle-permits State.created w h = ground arith
  handle-permits _ w h = ground arith
