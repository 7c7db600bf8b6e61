-- ===== src/Egress/Tests.antt =====
-- A session with one tap, and the theorems of this part at it.
use package.text.Mathlib.TextEquality.{eq_iff}
use zvonok.Prelude.{
  ℕ, String, ◌≡◌, refl, Bool, true, false, none, some, inl, List, [], ◌∷◌, ◌++◌, arith, str_dec,
  get, put, remove, has, add, discard, modify,
}
use zvonok.Media.State.{audio, camera}
use zvonok.Media.Consumers.{RoomTapDescriptor}
use zvonok.Egress.Inputs.{
  is_audio, is_screen_video, is_camera_video, filter, sorted_inputs, is_composable, sort_by_rank,
}
use zvonok.Egress.Order.{sorted_inputs_stable}
use zvonok.Egress.State.{
  EgressOutputs, ActiveSession, starting, Service, stopped, room_ended, stopped_process,
}
use zvonok.Egress.Ports.{in_use, free, port_from, allocate_port}
use zvonok.Egress.Pipeline.{
  close_runtime, without_runtime, set_start_timer, add_tap, run_process, begin_pipeline, open_tap,
  open_taps, spawn, start_pipeline, next_part, set_restart_timer, membership_restart, finalize,
}
use zvonok.Egress.Service.{new_row, new_session}
use zvonok.Egress.Failing.{Runs}
use zvonok.Egress.Endings.{HasEnded, end_is_final}
use zvonok.Egress.Late.{late_start_revives}
use zvonok.Egress.Stops.{Done}
use zvonok.Egress.Cascade.{membership_restart_cascades}
use zvonok.Egress.Output.{LineBuffer, push, drain, cut, is_separator, after_separator}
use zvonok.Egress.Lines.{push_split}
use zvonok.Egress.Targets.{LookedUp, addresses, ipv4, ipv6, starts_with, is_private_address}

program : Unit {0}
unfolding get put remove has add discard modify str_dec is_audio is_screen_video is_camera_video
    filter sorted_inputs is_composable in_use free port_from allocate_port close_runtime
    without_runtime set_start_timer add_tap run_process begin_pipeline open_tap open_taps spawn
    start_pipeline next_part set_restart_timer
program = tt

abbrev to_file : EgressOutputs
to_file = record { rtmp_endpoints = []; hls = false; recording = true }

abbrev voice : RoomTapDescriptor
voice = record { producer_id = "p1"; kind = audio; source = camera }

abbrev session : ActiveSession
session = record (new_session "e1" "r1" none to_file) { process = some 0 }

abbrev service : Service
service = record {
  heap = ("e1", session) ∷ [];
  sessions = "e1" ∷ [];
  ports_in_use = [];
  rows = ("e1", new_row "e1" "pr" "r1" to_file) ∷ [];
  next_process = 1;
  effects = [];
}

starts : Runs "e1" [] service
unfolding program
starts = (
  (
    starting,
    λ e. cc,
    record { session = session; found = refl; with_status = refl; with_times = refl },
  ),
  (new_row "e1" "pr" "r1" to_file, refl),
)

abbrev opens : String → Bool
opens id = true

abbrev times : List ℕ
times = 1000 ∷ 2000 ∷ 3000 ∷ 4000 ∷ []

membership_restart_cascades_example :
    Done (stopped_process 0) (membership_restart opens (voice ∷ []) "e1" service).effects
unfolding program
membership_restart_cascades_example =
    (membership_restart_cascades opens (voice ∷ []) "e1" 0 1000 1000 (2000 ∷ 3000 ∷ 4000 ∷ [])
      service (membership_restart opens (voice ∷ []) "e1" service) starts (session, refl, refl) refl
      refl (omega arith) (omega arith)).0

end_is_final_example : HasEnded "e1" stopped (finalize none "e1" stopped service)
end_is_final_example =
    (end_is_final none none "e1" stopped room_ended [] service opens (voice ∷ []) 1000 starts).0

late_start_revives_example : HasEnded "e1" room_ended (finalize none "e1" room_ended service)
late_start_revives_example =
    (late_start_revives opens (voice ∷ []) none "e1" room_ended [] service
      (finalize none "e1" room_ended service) starts refl).0

abbrev resolve : String → LookedUp
resolve e = addresses (ipv4 93 184 216 34 ∷ [])

-- The mapped form of an address of the server itself counts as public.
mapped_passes : is_private_address (ipv6 "::ffff:127.0.0.1") ≡ false
unfolding is_private_address starts_with str_dec
mapped_passes = ground (arith, eq_iff "::ffff:127.0.0.1" "::", eq_iff "::ffff:127.0.0.1" "::1")

sorted_inputs_stable_example : sorted_inputs (voice ∷ []) ≡ sort_by_rank (voice ∷ [])
sorted_inputs_stable_example = sorted_inputs_stable (voice ∷ [])

-- "ab" and a carriage return; a line feed, "cd" and a line feed; "x", a line feed and "y".
abbrev first_chunk : List ℕ
first_chunk = 97 ∷ 98 ∷ 13 ∷ []

abbrev second_chunk : List ℕ
second_chunk = 10 ∷ 99 ∷ 100 ∷ 10 ∷ []

abbrev third_chunk : List ℕ
third_chunk = 120 ∷ 10 ∷ 121 ∷ []

abbrev no_output : LineBuffer
no_output = record { pending = []; lines = [] }

-- A separator of two units that two chunks share counts twice.
shared_separator :
    (push second_chunk (push first_chunk no_output)).lines
    ≡ (97 ∷ 98 ∷ []) ∷ [] ∷ (99 ∷ 100 ∷ []) ∷ []
unfolding push drain cut is_separator after_separator
shared_separator = refl

whole_separator :
    (push (first_chunk ++ second_chunk) no_output).lines ≡ (97 ∷ 98 ∷ []) ∷ (99 ∷ 100 ∷ []) ∷ []
unfolding push drain cut is_separator after_separator
whole_separator = refl

push_split_example :
    push third_chunk (push second_chunk no_output) ≡ push (second_chunk ++ third_chunk) no_output
push_split_example = (push_split no_output second_chunk third_chunk (inl refl)).0
