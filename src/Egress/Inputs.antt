-- ===== src/Egress/Inputs.antt =====
-- `sortedInputs` and the checks of `composeEgressArgs`, apps/server/src/egress/ffmpeg/args-composer.ts.
use zvonok.Prelude.{
  ℕ, ◌-◌, Bool, true, false, ◌&&◌, not, List, [], ◌∷◌, ◌++◌, ltb, leb, ◌==◌, if◌then◌else◌, length,
}
use zvonok.Media.State.{Kind, audio, video, Source, camera, screen, other}
use zvonok.Media.Consumers.{RoomTapDescriptor}

audio_kind : Kind → Bool
audio_kind audio = true
audio_kind video = false

screen_video : Kind → Source → Bool
screen_video video screen = true
screen_video _ _ = false

camera_video : Kind → Source → Bool
camera_video video camera = true
camera_video _ _ = false

unfoldable pub is_audio : RoomTapDescriptor → Bool
unfolding audio_kind
is_audio d = audio_kind d.kind

unfoldable pub is_screen_video : RoomTapDescriptor → Bool
unfolding screen_video
is_screen_video d = screen_video d.kind d.source

unfoldable pub is_camera_video : RoomTapDescriptor → Bool
unfolding camera_video
is_camera_video d = camera_video d.kind d.source

-- `inputs.filter`.
unfoldable pub filter : (RoomTapDescriptor → Bool) → List RoomTapDescriptor → List RoomTapDescriptor
filter f [] = []
filter f (d ∷ ds) = let rest = filter f ds in if f d then d ∷ rest else rest

unfoldable pub sorted_inputs : List RoomTapDescriptor → List RoomTapDescriptor
sorted_inputs ds = filter is_audio ds ++ (filter is_screen_video ds ++ filter is_camera_video ds)

-- The pipeline wants an audio input, and at most four videos on its canvas.
unfoldable pub is_composable : List RoomTapDescriptor → Bool
is_composable ds =
    let ordered = sorted_inputs ds in
    let audio_count = length (filter is_audio ordered) in
    not (audio_count == 0) && leb (length ordered - audio_count) 4

rank_of : Kind → Source → ℕ
rank_of audio source = 0
rank_of video screen = 1
rank_of video camera = 2
rank_of video (other s) = 3

-- Where an input goes: audio first, then screens, then cameras, and nowhere for another source.
unfoldable pub rank : RoomTapDescriptor → ℕ
unfolding rank_of
rank d = rank_of d.kind d.source

-- An input is put before the first that goes after it, or has the same place.
unfoldable pub insert : RoomTapDescriptor → List RoomTapDescriptor → List RoomTapDescriptor
insert d [] = d ∷ []
insert d (x ∷ xs) = let rest = insert d xs in if leb (rank d) (rank x) then d ∷ x ∷ xs else x ∷ rest

-- A stable sort by rank, of the inputs that have one.
unfoldable pub sort_by_rank : List RoomTapDescriptor → List RoomTapDescriptor
sort_by_rank [] = []
sort_by_rank (d ∷ ds) = let rest = sort_by_rank ds in if ltb (rank d) 3 then insert d rest else rest
