-- ===== src/Server/ErrorPage.antt =====
-- frontend/src/lib/error-page.ts: the page that the server sends in place of an error.
use jvm_scout.Base.{◌∷◌, [], Text, codes, join_with}

-- `renderErrorPage`; the lines are joined by line feeds.
unfoldable pub render_error_page : Text
render_error_page = join_with 10 (
    codes "<!doctype html>"
    ∷ codes "<html lang=\"en\">"
    ∷ codes "  <head>"
    ∷ codes "    <meta charset=\"utf-8\" />"
    ∷ codes "    <title>This page didn't load</title>"
    ∷ codes "    <meta name=\"viewport\" content=\"width=device-width, initial-scale=1\" />"
    ∷ codes "    <style>"
    ∷ codes
        "      body { font: 15px/1.5 system-ui, -apple-system, sans-serif; background: #fafafa; color: #111; display: grid; place-items: center; min-height: 100vh; margin: 0; padding: 1.5rem; }"
    ∷ codes "      .card { max-width: 28rem; width: 100%; text-align: center; padding: 2rem; }"
    ∷ codes "      h1 { font-size: 1.25rem; margin: 0 0 0.5rem; }"
    ∷ codes "      p { color: #4b5563; margin: 0 0 1.5rem; }"
    ∷ codes
        "      .actions { display: flex; gap: 0.5rem; justify-content: center; flex-wrap: wrap; }"
    ∷ codes
        "      a, button { padding: 0.5rem 1rem; border-radius: 0.375rem; font: inherit; cursor: pointer; text-decoration: none; border: 1px solid transparent; }"
    ∷ codes "      .primary { background: #111; color: #fff; }"
    ∷ codes "      .secondary { background: #fff; color: #111; border-color: #d1d5db; }"
    ∷ codes "    </style>"
    ∷ codes "  </head>"
    ∷ codes "  <body>"
    ∷ codes "    <div class=\"card\">"
    ∷ codes "      <h1>This page didn't load</h1>"
    ∷ codes
        "      <p>Something went wrong on our end. You can try refreshing or head back home.</p>"
    ∷ codes "      <div class=\"actions\">"
    ∷ codes "        <button class=\"primary\" onclick=\"location.reload()\">Try again</button>"
    ∷ codes "        <a class=\"secondary\" href=\"/\">Go home</a>"
    ∷ codes "      </div>"
    ∷ codes "    </div>"
    ∷ codes "  </body>"
    ∷ codes "</html>"
    ∷ [])
