-- ===== src/Bridge/ReadOnly.antt =====
-- CodexBridge::observerMethodIsReadOnly: the methods that an observer may call.
use aisuite.Common.{Bool, false, ◌||◌, List, [], ◌∷◌, Text, text, text_eq}

unfoldable pub exact_methods : List Text
exact_methods =
    text "account/bedrock/discover"
    ∷ text "account/read"
    ∷ text "account/rateLimits/read"
    ∷ text "account/usage/read"
    ∷ text "account/workspaceMessages/read"
    ∷ text "app/installed"
    ∷ text "app/list"
    ∷ text "app/read"
    ∷ text "collaborationMode/list"
    ∷ text "config/read"
    ∷ text "configRequirements/read"
    ∷ text "environment/status"
    ∷ text "experimentalFeature/list"
    ∷ text "externalAgentConfig/import/readHistories"
    ∷ text "fs/getMetadata"
    ∷ text "fs/readDirectory"
    ∷ text "fs/readFile"
    ∷ text "hooks/list"
    ∷ text "mcpServer/resource/read"
    ∷ text "mcpServerStatus/list"
    ∷ text "model/list"
    ∷ text "modelProvider/capabilities/read"
    ∷ text "permissionProfile/list"
    ∷ text "plugin/installed"
    ∷ text "plugin/list"
    ∷ text "plugin/read"
    ∷ text "plugin/search"
    ∷ text "plugin/share/list"
    ∷ text "plugin/skill/read"
    ∷ text "project/list"
    ∷ text "project/read"
    ∷ text "remoteControl/client/list"
    ∷ text "remoteControl/status/read"
    ∷ text "server/diagnostics"
    ∷ text "skills/list"
    ∷ text "thread/backgroundTerminals/list"
    ∷ text "thread/goal/get"
    ∷ text "thread/list"
    ∷ text "thread/loaded/list"
    ∷ text "thread/items/list"
    ∷ text "thread/queue/list"
    ∷ text "thread/read"
    ∷ text "thread/realtime/listVoices"
    ∷ text "thread/search"
    ∷ text "thread/searchOccurrences"
    ∷ text "thread/timeline/list"
    ∷ text "thread/turns/list"
    ∷ text "threadSection/list"
    ∷ text "userVerification/status"
    ∷ text "windowsSandbox/readiness"
    ∷ []

-- `std::ranges::find(methods, method) != methods.end()`.
unfoldable pub is_among : List Text → Text → Bool
is_among [] method = false
is_among (m ∷ ms) method = text_eq m method || is_among ms method

unfoldable pub observer_method_is_read_only : Text → Bool
unfolding exact_methods is_among
observer_method_is_read_only method = is_among exact_methods method
