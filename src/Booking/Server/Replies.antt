-- ===== src/Booking/Server/Replies.antt =====
-- The texts that the server sends.
use sp_hw.Base.{ℕ, List, ◌++◌}
use sp_hw.Base.Int.{ℤ}
use sp_hw.Base.Decimal.{print_int}
use sp_hw.Base.Text.{codes}
use sp_hw.Booking.Command.{Triple}

pub data Reply : Type 0 where
  ask_id failure locked too_many too_few : Reply
  booking_state : Triple → Reply
  booking_prompt : Triple → Reply
  updated : ℤ → Triple → Reply

-- "Food: %d booked\nConcert: %d booked\nElectronics: %d booked\n"
unfoldable pub print_state : Triple → List ℕ
print_state t =
    codes "Food: "
    ++ (print_int t.food
        ++ (codes " booked\nConcert: "
            ++ (print_int t.concert
                ++ (codes " booked\nElectronics: "
                    ++ (print_int t.electronics ++ codes " booked\n")))))

-- What is written to the client.
unfoldable pub print_reply : Reply → List ℕ
unfolding print_state
print_reply Reply.ask_id = codes "Please enter your id (to check your booking state):\n"
print_reply Reply.failure = codes "[Error] Operation failed. Please try again.\n"
print_reply Reply.locked = codes "Locked.\n"
print_reply Reply.too_many =
    codes "[Error] Sorry, but you cannot book more than 15 items in total.\n"
print_reply Reply.too_few = codes "[Error] Sorry, but you cannot book less than 0 items.\n"
print_reply (Reply.booking_state t) = print_state t ++ codes "\n(Type Exit to leave...)\n"
print_reply (Reply.booking_prompt t) =
    print_state t
    ++ codes
        "\nPlease input your booking command. (Food, Concert, Electronics. Positive/negative value increases/decreases the booking amount.):\n"
print_reply (Reply.updated id t) =
    codes "Bookings for user "
    ++ (print_int id ++ (codes " are updated, the new booking state is:\n" ++ print_state t))
