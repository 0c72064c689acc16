-- ===== src/Ui/Tests.antt =====
-- The dialogue of UI/UI.c with a client library that agrees to everything.
use chat_project.Prelude.{
  ◌≡◌, ◌⊎◌, refl, some, List, [], ◌∷◌, ◌++◌, ok, Bytes, codes, replicate, length,
}
use chat_project.Client.{client_success, create_user_details, max_field}
use chat_project.Client.Details.{written}
use chat_project.Ui.{
  Calls, number_or, fit_word, register_accepted, login_accepted, read_name, init_name,
  init_username, init_psw, register_option, login_option, first_answer, register_and_ask, round,
  enter,
}
use chat_project.Ui.Library.{Typed, number, word, next_number, next_word}
use chat_project.Ui.Names.{names_fit}
use chat_project.Ui.Entry.{LoggedIn, RegisteredOnly, enter-guarded}

abbrev agreeing : Calls (List Typed)
unfolding next_number next_word
agreeing = record {
  scan_number = next_number;
  scan_word = next_word (λ n. n ∷ []);
  malloc = λ size typed. (some 32, typed);
  register = λ name psw typed. ok (client_success, typed);
  log_in = λ name psw typed. ok (some client_success, typed);
  create_group = λ user group typed. ok (client_success, typed);
  join_group = λ user group typed. ok (client_success, typed);
  leave_group = λ user group typed. ok (client_success, typed);
}

-- registering, and no login
abbrev declined : List Typed
declined =
    number 0
    ∷ word (codes "ann")
    ∷ word (codes "a name that is too long")
    ∷ word (codes "pw")
    ∷ number 2
    ∷ number 3
    ∷ []

abbrev ann : Bytes
ann = codes "ann"

entered : enter agreeing 4 5 declined ≡ ok (some ann, number 3 ∷ [])
unfolding enter round register_and_ask first_answer init_psw init_username init_name read_name
    fit_word register_option login_option register_accepted login_accepted number_or next_number
    next_word
entered = refl

enter-guarded_example :
    LoggedIn agreeing (some ann) (number 3 ∷ [])
    ⊎ RegisteredOnly agreeing (some ann) (number 3 ∷ [])
enter-guarded_example = enter-guarded agreeing 4 5 (some ann) declined (number 3 ∷ []) entered

name_read : init_username agreeing 4 (word ann ∷ []) ≡ ok (some ann, [])
unfolding init_username init_name read_name fit_word next_number next_word
name_read = refl

psw_read : init_psw agreeing 4 (word ann ∷ []) ≡ ok (some ann, [])
unfolding init_psw init_name read_name fit_word next_number next_word
psw_read = refl

-- a field of 17 bytes that nothing was written to
abbrev stale : Bytes
stale = replicate 17 170

names_fit_example :
    (create_user_details (some (7 ∷ (stale ++ (stale ++ [])))) ann ann
      ≡ ok (some (7 ∷ (written ann stale ++ (written ann stale ++ [])))))
    × (length (written ann stale) ≡ max_field)
    × (length (written ann stale) ≡ max_field)
names_fit_example =
    names_fit agreeing 4 (word ann ∷ []) [] (word ann ∷ []) [] 7 ann ann stale stale [] name_read
      psw_read refl refl
