-- ===== src/Tasks/Inbound/Prompt.antt =====
-- a2aSenderDisplay, a2aWalletSendApprovalMessage and the prompt for a privileged skill
-- (pilot-module/src/pilot_a2a_inbox.cpp).
use logos_pilot.Prelude.{Bool, [], ◌++◌, if◌then◌else◌}
use logos_pilot.Prelude.Int.{ℤ}
use logos_pilot.Text.{Text, codes, is_empty}
use logos_pilot.Text.Decimal.{decimal_ℤ}
use logos_pilot.Text.Flatten.{flatten_for_prompt}

unfoldable pub sender_display : Bool → Bool → Text → Text
sender_display authenticated first_contact npk =
    if authenticated
    then (if first_contact
        then codes "authenticated, first contact " ++ flatten_for_prompt npk
        else codes "authenticated known peer " ++ flatten_for_prompt npk)
    else codes "UNVERIFIED " ++ flatten_for_prompt npk

abbrev reason_line : Text → Text
reason_line r = if is_empty r then [] else codes "\nReason: " ++ r

unfoldable pub wallet_send_approval_message : Text → Text → ℤ → Text → Text → Text → Text
wallet_send_approval_message skill sender amount recipient reason spend_id =
    codes "Peer agent task needs approval:\nSkill: "
    ++ (flatten_for_prompt skill
        ++ (codes "\nFrom: "
            ++ (sender
                ++ (codes "\nAmount: "
                    ++ (decimal_ℤ amount
                        ++ (codes " LEZ\nTo: "
                            ++ (flatten_for_prompt recipient
                                ++ (reason_line (flatten_for_prompt reason)
                                    ++ (codes "\nExpires: 60 min\n/approve "
                                        ++ (spend_id ++ (codes "\n/reject " ++ spend_id)))))))))))

unfoldable pub privileged_message : Text → Text → Text → Text
privileged_message skill sender task_id =
    codes "Peer agent requests a privileged skill (owner approval required):\nSkill: "
    ++ (flatten_for_prompt skill
        ++ (codes "\nFrom: "
            ++ (sender
                ++ (codes
                      "\nThis skill touches local files, this agent's messaging identity, or on-chain state, so it will NOT run autonomously for a stranger.\nTask id: "
                    ++ task_id))))
