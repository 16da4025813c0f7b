-- ===== src/Web/Composer/Tests.antt =====
-- A message to Ann, with and without a file.
use agentunited.Prelude.{String, false, none, some, List, [], ◌∷◌, ◌≡◌, refl}
use agentunited.Prelude.Text.{take_text, drop_text, includes}
use agentunited.Web.Mentions.{Member, human, enter, handle_key_down, handle_input_change}
use agentunited.Web.Composer.{
  handle_value_change, handle_textarea_key_down, Composer, make, File, Sent, error, succeeds,
  handle_file_select,
}
use agentunited.Web.Composer.Sending.{
  enabled, handle, types, picks_file, presses, clicks_send, ends, step, run, run-AreSendable,
  AreSendable, failed_send_repeats,
}

abbrev same : String → String
same text = text

abbrev ann : Member
ann = record { id = "u1"; name = "Ann"; email = "ann@h"; member_type = human; online = none }

abbrev written : Composer
written = record make { value = "hi @Ann"; current_mentions = ("u1", "Ann") ∷ [] }

abbrev note : File
note = record { name = "a.txt"; size = 10 }

abbrev large : File
large = record { name = "b.txt"; size = 10485761 }

abbrev twice : Composer × List Sent
twice =
    run same same (ann ∷ []) (types "@" 1 ∷ presses enter false 1 ∷ presses enter false 4 ∷ []) make
      []

-- Typing @ and pressing Enter twice completes the mention twice.
completed :
    (twice.0.value ≡ "@Ann")
    × (twice.0.current_mentions ≡ ("u1", "Ann") ∷ ("u1", "Ann") ∷ [])
    × (twice.1 ≡ [])
unfolding run step enabled handle handle_value_change handle_textarea_key_down handle_key_down
    handle_input_change take_text includes drop_text
completed = (refl, refl, refl)

abbrev at_ann : Composer
at_ann = record make { value = "hi @Ann" }

too_large : (handle_file_select (some large) make).selected_file ≡ none
unfolding handle_file_select
too_large = refl

run-AreSendable_example :
    AreSendable same same
      (ann ∷ [])
      (run same same
        (ann ∷ [])
        (picks_file (some large)
          ∷ picks_file (some note)
          ∷ clicks_send
          ∷ ends succeeds
          ∷ clicks_send
          ∷ [])
        make
        []).1
run-AreSendable_example =
    run-AreSendable same same (ann ∷ [])
      (picks_file (some large)
        ∷ picks_file (some note)
        ∷ clicks_send
        ∷ ends succeeds
        ∷ clicks_send
        ∷ [])
      make [] tt tt

failed_send_repeats_example :
    ((step same same
        (ann ∷ [])
        clicks_send
        (step same same
          (ann ∷ [])
          (ends (error "offline"))
          (step same same (ann ∷ []) clicks_send written).0).0).1
      ≡ some (record { message = "hi @Ann"; mentions = ("u1", "Ann") ∷ []; attachment = none }))
    × ((step same same
          (ann ∷ [])
          (ends (error "offline"))
          (step same same (ann ∷ []) clicks_send written).0).0.upload_error
        ≡ some "offline")
failed_send_repeats_example = failed_send_repeats same same (ann ∷ []) written "offline" refl refl
