-- ===== src/Web/Mentions/Tests.antt =====
-- Two members and short texts.
use agentunited.Prelude.{String, true, false, none, some, List, [], ◌∷◌, ◌≡◌, refl}
use agentunited.Web.Mentions.{
  Member, Mentions, human, agent, make, parse_mentions, matches, mentions_of, word_of, member_named,
  arrow_up, enter, tab, escape, other, handle_key_down, filtered_members, above, last_index, hidden,
}
use agentunited.Prelude.Text.{includes, strip_prefix}
use agentunited.Web.Mentions.Completing.{completed, press}

abbrev lower : String → String
lower text = text

abbrev ann : Member
ann = record { id = "u1"; name = "ann"; email = "a@h"; member_type = human; online = none }

abbrev bot : Member
bot = record { id = "u2"; name = "bot"; email = "b@h"; member_type = agent; online = some true }

abbrev both : List Member
both = ann ∷ bot ∷ []

found_bot :
    parse_mentions lower both "hi @@bot, @x"
    ≡ record { user_id = "u2"; display = "bot"; start_index = 4; end_index = 8 } ∷ []
unfolding parse_mentions matches mentions_of word_of member_named
found_bot = refl

abbrev menu : Mentions
menu = record {
  mention_query = "";
  selected_member_index = some 1;
  is_showing_mentions = true;
  current_mention_start = some 3;
}

no_entry :
    (press lower [] "@" 1 arrow_up
      (record menu { selected_member_index = some 0 })).selected_member_index
    ≡ none
unfolding handle_key_down filtered_members above last_index
no_entry = refl

picked : (handle_key_down lower both enter "hi @b!" 5 menu).1 ≡ true
unfolding handle_key_down filtered_members includes strip_prefix
picked = refl

ignored : (handle_key_down lower both other "hi @b!" 5 menu).1 ≡ false
unfolding handle_key_down
ignored = refl

left : handle_key_down lower both tab "hi" 2 make ≡ (make, false, none)
unfolding handle_key_down make
left = refl

closed : (handle_key_down lower both escape "hi @b!" 5 menu).0.is_showing_mentions ≡ false
unfolding handle_key_down hidden
closed = refl

completed_text : (completed bot "hi " "!").new_value ≡ "hi @bot!"
completed_text = refl
