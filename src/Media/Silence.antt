-- ===== src/Media/Silence.antt =====
-- `muteAll`: who is muted and who is not.
use zvonok.Prelude.{String, ◌≡◌, ◌⊎◌, true, some, List, [], ◌∷◌, Map, get}
use zvonok.Media.State.{Sfu, MediaPeer, Producer}

-- Each producer is paused.
abbrev AllPaused : Map Producer → Type 0
AllPaused [] = Unit
AllPaused ((k, p) ∷ ps) = (p.paused ≡ true) × AllPaused ps

-- What the member publishes, if anything, is paused.
abbrev pub IsMuted : Sfu → String → Type 0
IsMuted s x = (peer : MediaPeer) → get x s.media ≡ some peer → AllPaused peer.producers

abbrev Listed : String → List (String × String) → Type 0
Listed x [] = ⊥
Listed x ((y, u) ∷ ys) = (y ≡ x) ⊎ Listed x ys
