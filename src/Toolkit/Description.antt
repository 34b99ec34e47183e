-- ===== src/Toolkit/Description.antt =====
-- internal/toolkit/description.go: the instructions of the generate tool.
use Prim.Native.String.{◌++◌}
use adk_a2ui_go.Common.{String, List, [], ◌∷◌, ◌==◌, if◌then◌else◌, map}
use adk_a2ui_go.Common.Text.{quote, join}

-- `descriptionTemplate` as `Sprintf` fills it, in pieces: the version, the keys, the notes and the id.
unfoldable pub filled : String → String → String → String → List String
filled version keys notes example =
    "Renders interactive UI in the chat by sending validated A2UI " ∷ version
    ∷ " messages to the client. This is the ONLY way to display structured UI (forms, cards, dashboards, buttons, etc.). Do not describe UI in plain text when this tool is available.\n"
    ∷ "\n" ∷ "WHEN TO USE:\n"
    ∷ "- The user asks to show, build, display, or update a UI, form, widget, or visual layout.\n"
    ∷ "- You need to create a surface, change its components, update bound data, or remove it.\n"
    ∷ "\n" ∷ "WHEN NOT TO USE:\n" ∷ "- A text-only answer is sufficient.\n"
    ∷ "- You have not called a2ui_catalog yet. It tells you the component names, their properties, and the valid catalogId values.\n"
    ∷ "- A previous call returned status \"success\" for the same UI task. Your work is done.\n"
    ∷ "\n" ∷ "WORKFLOW:\n"
    ∷ "1. Call a2ui_catalog and read the catalogs and instructions it returns.\n"
    ∷ "2. Call this tool once with a messages array. Every message MUST include \"version\": \""
    ∷ version ∷ "\" and exactly one of " ∷ keys ∷ ".\n"
    ∷ "3. On status \"success\", stop. Do not call again for the same UI.\n"
    ∷ "4. On error, fix exactly the problems listed and retry with the corrected messages.\n" ∷ "\n"
    ∷ "NEW SURFACE (send together in one call):\n"
    ∷ "1. createSurface with a surfaceId and catalogId.\n"
    ∷ "2. updateComponents for the same surfaceId with a component tree that includes a component with \"id\": \"root\".\n"
    ∷ "\n"
    ∷ "CRITICAL: the client mounts the component whose id is \"root\". A surface without one renders nothing.\n"
    ∷ "\n" ∷ "UPDATING EXISTING UI:\n"
    ∷ "- Rebuild layout: updateComponents (include id \"root\" again when replacing the tree).\n"
    ∷ "- Change bound values only: updateDataModel.\n" ∷ "- Remove UI: deleteSurface.\n" ∷ "\n"
    ∷ "VERSION NOTES (" ∷ version ∷ "):\n" ∷ notes ∷ "\n" ∷ "Example (new surface, minimal):\n"
    ∷ "{\n" ∷ "  \"messages\": [\n" ∷ "    {\"version\": \"" ∷ version
    ∷ "\", \"createSurface\": {\"surfaceId\": \"signup-form\", \"catalogId\": \"" ∷ example
    ∷ "\"}},\n" ∷ "    {\"version\": \"" ∷ version
    ∷ "\", \"updateComponents\": {\"surfaceId\": \"signup-form\", \"components\": [\n"
    ∷ "      {\"id\": \"root\", \"component\": \"Card\", \"child\": \"title\"},\n"
    ∷ "      {\"id\": \"title\", \"component\": \"Text\", \"text\": \"Sign up\"}\n" ∷ "    ]}}\n"
    ∷ "  ]\n" ∷ "}\n" ∷ []

-- The loop that writes the notes.
note_lines : List String → String
note_lines [] = ""
note_lines (n ∷ ns) = "- " ++ (n ++ ("\n" ++ note_lines ns))

-- `Description`, for a version, the keys of its messages, its notes and an example of a catalog's id.
unfoldable pub describe : String → List String → List String → String → String
unfolding filled note_lines
describe version keys notes example = join "" (
    filled version (join ", " (map quote keys)) (note_lines notes)
      (if example == "" then "<a catalogId from a2ui_catalog>" else example))
